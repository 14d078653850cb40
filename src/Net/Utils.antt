-- ===== src/Net/Utils.antt =====
-- private_poker/src/net/utils.rs: a message on a stream is its length, in four bytes, and its encoding,
-- which a codec (bincode) makes.
pub mod RoundTrip
use private_poker.Prelude.{
  ℕ, ◌+◌, ◌*◌, ◌/◌, ◌%◌, ◌≡◌, Bool, true, false, List, [], ◌∷◌, ◌++◌, leb, length, take, drop,
  if◌then◌else◌, u32_mod,
}
use private_poker.Net.Io.{
  ErrorKind, broken_pipe, connection_aborted, connection_reset, interrupted, invalid_data, other,
  timed_out, unexpected_eof, would_block, write_zero, IoResult, ok, err,
}

-- What a codec returns: a value, or an error of input and output or of another kind.
pub data Coded {ℓ} (A : Type ℓ) : Type ℓ where
  coded : A → Coded A
  io_error : ErrorKind → Coded A
  code_error : Coded A

-- `bincode`, for the messages of one type: what was encoded is decoded as it was.
pub record Codec (T : Type 0) : Type 0 where
  pub serialize : T → Coded (List ℕ)
  pub deserialize : List ℕ → Coded T
  pub serialize-deserialize :
      (value : T) (bytes : List ℕ) → serialize value ≡ coded bytes → deserialize bytes ≡ coded value

-- `u32::to_le_bytes` and `u32::from_le_bytes`.
abbrev pub to_le_bytes : ℕ → List ℕ
to_le_bytes n = n % 256 ∷ n / 256 % 256 ∷ n / 65536 % 256 ∷ n / 16777216 % 256 ∷ []

abbrev pub from_le_bytes : List ℕ → ℕ
from_le_bytes [] = 0
from_le_bytes (b ∷ bs) = let rest = from_le_bytes bs in b + 256 * rest

-- The bytes that a stream has, and whether it is closed after them.
pub record Reader : Type 0 where
  pub bytes : List ℕ
  pub closed : Bool

-- `read_exact` takes what there is when it fails.
abbrev pub read_exact : ℕ → Reader → IoResult (List ℕ) × Reader
read_exact n r =
    if leb n (length r.bytes)
    then (ok (take n r.bytes), record r { bytes = drop n r.bytes })
    else (err (if r.closed then unexpected_eof else would_block), record r { bytes = [] })

-- An error after the length has been read.
abbrev pub body_error : ErrorKind → ErrorKind
body_error would_block = invalid_data
body_error broken_pipe = broken_pipe
body_error connection_aborted = connection_aborted
body_error connection_reset = connection_reset
body_error interrupted = interrupted
body_error invalid_data = invalid_data
body_error other = other
body_error timed_out = timed_out
body_error unexpected_eof = unexpected_eof
body_error write_zero = write_zero

abbrev pub code_result {ℓ} : {A : Type ℓ} → Coded A → IoResult A
code_result (coded value) = ok value
code_result (io_error kind) = err kind
code_result code_error = err invalid_data

module _ {T : Type 0} (codec : Codec T) where
  abbrev pub read_body : IoResult (List ℕ) × Reader → IoResult T × Reader
  read_body (err kind, r) = (err (body_error kind), r)
  read_body (ok buf, r) = (code_result (codec.deserialize buf), r)

  abbrev pub read_sized : IoResult (List ℕ) × Reader → IoResult T × Reader
  read_sized (err kind, r) = (err kind, r)
  read_sized (ok len_bytes, r) = read_body (read_exact (from_le_bytes len_bytes) r)

  unfoldable pub read_prefixed : Reader → IoResult T × Reader
  read_prefixed r = read_sized (read_exact 4 r)

  -- The bytes that are given to `write_all`, in one piece.
  abbrev pub prefixed : List ℕ → List ℕ
  prefixed serialized = to_le_bytes (length serialized % u32_mod) ++ serialized

  abbrev pub write_coded :
      {W : Type 0}
      → (List ℕ → W → IoResult (Unit {0}) × W)
      → Coded (List ℕ)
      → W
      → IoResult (Unit {0}) × W
  write_coded write_all (coded serialized) w = write_all (prefixed serialized) w
  write_coded write_all (io_error kind) w = (err kind, w)
  write_coded write_all code_error w = (err invalid_data, w)

  unfoldable pub write_prefixed :
      {W : Type 0} → (List ℕ → W → IoResult (Unit {0}) × W) → T → W → IoResult (Unit {0}) × W
  write_prefixed write_all value w = write_coded write_all (codec.serialize value) w
