-- ===== src/Connections/S3.antt =====
-- The connection to an S3 gateway (src/sibench/s3_connection.go). What the gateway answers and the
-- body of an object are parameters.
pub mod Buckets
pub mod Bodies
use sibench.Base.{
  ℕ, zero, suc, ◌-◌, ◌==◌, if◌then◌else◌, Bool, true, false, ◌&&◌, List, [], ◌∷◌, ◌++◌, length,
}
use Prim.Native.String.{String}
use text.Mathlib.Text.{◌==◌ as str_eq}

-- The answer to HeadBucket.
pub data HeadAnswer : Type 0 where
  is_there no_such_bucket head_failed : HeadAnswer

-- The calls that concern the bucket.
pub data BucketCall : Type 0 where
  head_bucket create_bucket delete_bucket : BucketCall

-- What the gateway answers to the manager, and whether a session with it can be made.
pub record Gateway : Type 0 where
  pub has_session : Bool
  pub head : HeadAnswer
  pub creates : Bool
  pub deletes : Bool

-- `S3Connection`, with the calls that it has made, oldest first.
pub record S3Connection : Type 0 where
  pub access_key : String
  pub secret_key : String
  pub bucket_created_by_sibench : Bool
  pub calls : List BucketCall

-- `bucketExists`; its error is not used.
unfoldable pub bucket_exists : HeadAnswer → Bool
bucket_exists is_there = true
bucket_exists no_such_bucket = false
bucket_exists head_failed = false

-- `createBucket`; true is for no error.
unfoldable pub make_bucket : Gateway → S3Connection → Bool × S3Connection
make_bucket g conn =
    let asked = record conn { calls = conn.calls ++ (head_bucket ∷ []) } in
    let called = record asked { calls = asked.calls ++ (create_bucket ∷ []) } in
    if bucket_exists g.head
    then (true, asked)
    else if g.creates
    then (true, record called { bucket_created_by_sibench = true })
    else (false, called)

-- `WorkerConnect`, whether it succeeds.
unfoldable pub has_client : Gateway → S3Connection → Bool
has_client g conn =
    if str_eq conn.access_key ""
    then false
    else if str_eq conn.secret_key ""
    then false
    else g.has_session

-- `ManagerConnect`
unfoldable pub connect_manager : Gateway → S3Connection → Bool × S3Connection
connect_manager g conn =
    let made = make_bucket g conn in if has_client g conn then made else (false, conn)

-- `ManagerClose`
unfoldable pub close_manager : Gateway → Bool → S3Connection → Bool × S3Connection
close_manager g cleanup conn =
    if cleanup && conn.bucket_created_by_sibench
    then (g.deletes, record conn { calls = conn.calls ++ (delete_bucket ∷ []) })
    else (true, conn)

-- What a Read of the body gives: bytes, and the body after it, where there is no error; bytes with
-- the end of the body; or another error.
pub data BodyRead {ℓ} (C : Type ℓ) : Type ℓ where
  more_of_body : List ℕ → C → BodyRead C
  last_of_body : List ℕ → BodyRead C
  body_failed : BodyRead C

-- What the buffer holds after `GetObject`, or the error.
pub data Streamed : Type 0 where
  streamed : List ℕ → Streamed
  wrong_length stream_failed stream_endless : Streamed

module _ {ℓ} {C : Type ℓ} (read : C → ℕ → BodyRead C) where
  -- The loop of `GetObject`, with at most `n` rounds left; `got` is the buffer before `pos`.
  unfoldable pub body_loop : ℕ → ℕ → List ℕ → C → Streamed
  body_loop zero capacity got c = stream_endless
  body_loop (suc n) capacity got c = elim (read c (capacity - length got)) [
    | more_of_body bytes c' ↦ body_loop n capacity (got ++ bytes) c'
    | last_of_body bytes ↦ streamed (got ++ bytes)
    | body_failed ↦ stream_failed
  ]

  -- `GetObject` into a buffer of the given capacity, from a response with the given length.
  unfoldable pub get_body : ℕ → ℕ → ℕ → C → Streamed
  get_body n capacity content_length c =
      if content_length == capacity then body_loop n capacity [] c else wrong_length
