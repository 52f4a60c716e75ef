-- ===== src/Connections/S3/Buckets.antt =====
-- What a session of the manager does to the bucket.
use sibench.Base.{
  not, if◌then◌else◌, Bool, true, false, ◌&&◌, List, [], ◌∷◌, ◌≡◌, refl, ap, ◌∙◌, arith, Bool-cases,
  inl, inr,
}
use Prim.Native.String.{String}
use text.Mathlib.Text.{◌==◌ as str_eq}
use sibench.Connections.S3.{
  HeadAnswer, is_there, BucketCall, delete_bucket, Gateway, S3Connection, bucket_exists,
  make_bucket, has_client, connect_manager, close_manager,
}

abbrev pub was_deleted : List BucketCall → Bool
was_deleted [] = false
was_deleted (delete_bucket ∷ calls) = true
was_deleted (_ ∷ calls) = was_deleted calls

-- A connection that the manager has just made.
abbrev pub fresh : String → String → S3Connection
fresh access secret = record {
  access_key = access;
  secret_key = secret;
  bucket_created_by_sibench = false;
  calls = [];
}

-- A session of the manager.
abbrev pub session : Gateway → Gateway → Bool → S3Connection → S3Connection
session g g' cleanup conn = (close_manager g' cleanup (connect_manager g conn).1).1

after_client :
    (g g' : Gateway) (cleanup : Bool) (access secret : String)
    → was_deleted (close_manager g' cleanup (make_bucket g (fresh access secret)).1).1.calls
      ≡ (cleanup && (not (bucket_exists g.head) && g.creates))
unfolding close_manager make_bucket
after_client g g' cleanup access secret = ground arith

with_client :
    (g : Gateway) (conn : S3Connection)
    → has_client g conn ≡ true
    → connect_manager g conn ≡ make_bucket g conn
unfolding connect_manager
with_client g conn e = rw (e, connect_manager, if◌then◌else◌) refl

without_client :
    (g : Gateway) (conn : S3Connection)
    → has_client g conn ≡ false
    → connect_manager g conn ≡ (false, conn)
unfolding connect_manager
without_client g conn e = rw (e, connect_manager, if◌then◌else◌) refl

never_connected :
    (g' : Gateway) (cleanup : Bool) (access secret : String)
    → was_deleted (close_manager g' cleanup (fresh access secret)).1.calls ≡ false
unfolding close_manager
never_connected g' cleanup access secret = ground arith

abbrev closes : Gateway → Bool → Bool × S3Connection → Bool
closes g' cleanup r = was_deleted (close_manager g' cleanup r.1).1.calls

-- HeadBucket finds the bucket.
abbrev pub is_found : HeadAnswer → Bool
is_found is_there = true
is_found _ = false

bucket_exists_lem : (h : HeadAnswer) → bucket_exists h ≡ is_found h
unfolding bucket_exists
bucket_exists_lem h = ground arith

-- Whatever the gateway answers, a session of a connection with the given keys calls DeleteBucket
-- exactly if it is to clean up, both keys are given, the client's session could be made, HeadBucket
-- did not find the bucket, whether it is missing or could not be asked for, and CreateBucket
-- succeeded.
pub session_deletes :
    (g g' : Gateway) (cleanup : Bool) (access secret : String)
    → was_deleted (session g g' cleanup (fresh access secret)).calls ≡ (
        cleanup
        && (not (str_eq access "")
            && (not (str_eq secret "") && (g.has_session && (not (is_found g.head) && g.creates)))))
unfolding has_client
session_deletes g g' cleanup access secret =
    let found = bucket_exists_lem g.head in
    elim (Bool-cases (has_client g (fresh access secret))) [
      | inl client ↦
          ap (closes g' cleanup) (with_client g (fresh access secret) client)
          ∙ after_client g g' cleanup access secret
          ∙ ground (arith, client, found)
      | inr alone ↦
          ap (closes g' cleanup) (without_client g (fresh access secret) alone)
          ∙ never_connected g' cleanup access secret
          ∙ ground (arith, alone)
    ]
