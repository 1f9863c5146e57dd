-- ===== src/Pbs/Session/Writer/Monad.antt =====
-- crates/pbs-client/src/session.rs: a writer session as a log of requests to a server.
use pbsgui.Base.{Bool, List, Option, Text, err, ok, ℕ, ◌∷◌}
use pbsgui.Base.Bytes.{Bytes}
use pbsgui.Pbs.Error.{PbsResult}

-- The path, the query and the body of a request, before they are printed. Digests stand for their hex text.
pub data Request : Type 0 where
  -- archive-name, size
  create_fixed : Text → ℕ → Request
  -- wid, digest, size, body
  fixed_chunk : ℕ → Bytes → ℕ → Bytes → Request
  -- wid, digest-list, offset-list
  append_fixed : ℕ → List Bytes → List ℕ → Request
  -- wid, chunk-count, size, csum
  close_fixed : ℕ → ℕ → ℕ → Bytes → Request
  -- file-name, body
  blob : Text → Bytes → Request
  create_dynamic : Text → Request
  dynamic_chunk : ℕ → Bytes → ℕ → Bytes → Request
  append_dynamic : ℕ → List Bytes → List ℕ → Request
  close_dynamic : ℕ → ℕ → ℕ → Bytes → Request
  previous : Text → Request
  finish_session : Request

-- The status of a response, its body, and what the crate serde_json reads in the body: whether it is JSON, and the
-- number under `data`.
pub record Answer : Type 0 where
  pub is_success : Bool
  pub body : Bytes
  pub is_json : Bool
  pub data_number : Option ℕ

-- The server with the HTTP/2 connection: its answer, given the requests before, the last one first.
abbrev pub Peer : Type 0
Peer = List Request → Request → PbsResult Answer

-- An operation takes the log and gives a result and the log after it, where an error stops what follows.
abbrev pub Writer : Type 0 → Type 0
Writer A = List Request → PbsResult A × List Request

abbrev pub after :
    {A B : Type 0} → (A → Writer B) → PbsResult A × List Request → PbsResult B × List Request
after f (ok a, log) = f a log
after f (err e, log) = (err e, log)

infixl 5 ◌>>=◌
abbrev pub ◌>>=◌ : {A B : Type 0} → Writer A → (A → Writer B) → Writer B
(m >>= f) log = after f (m log)

abbrev pub lift : {A : Type 0} → PbsResult A → Writer A
lift r log = (r, log)

abbrev pub send : Peer → Request → Writer Answer
send peer r log = (peer log r, r ∷ log)
