-- ===== src/Net/Utils/RoundTrip.antt =====
-- What `write_prefixed` of private_poker/src/net/utils.rs writes, `read_prefixed` reads.
use private_poker.Prelude.{
  ℕ, ◌%◌, ◌≡◌, ◌<◌, refl, ap, ◌∙◌, le→leb, length-append, Bool, true, false, List, [], ◌∷◌, ◌++◌,
  leb, length, take, drop, if◌then◌else◌, u32_mod, arith,
}
use private_poker.Net.Io.{would_block, unexpected_eof, invalid_data, IoResult, ok, err}
use private_poker.Net.Utils.{
  Codec, coded, to_le_bytes, from_le_bytes, Reader, read_exact, code_result, read_body, read_sized,
  read_prefixed, prefixed, write_prefixed,
}

le_bytes : (n : ℕ) → n < u32_mod → from_le_bytes (to_le_bytes n) ≡ n
le_bytes n h = omega (arith, h)

-- A writer that keeps what it is given.
abbrev pub append_all : List ℕ → List ℕ → IoResult (Unit {0}) × List ℕ
append_all bytes written = (ok tt, written ++ bytes)

module _ {ℓ} {A : Type ℓ} where
  take-++ : (xs ys : List A) → take (length xs) (xs ++ ys) ≡ xs
  take-++ [] ys = refl
  take-++ (x ∷ xs) ys = ap (x ∷◌) (take-++ xs ys)

  drop-++ : (xs ys : List A) → drop (length xs) (xs ++ ys) ≡ ys
  drop-++ [] ys = refl
  drop-++ (x ∷ xs) ys = drop-++ xs ys

read_exact-++ :
    (xs ys : List ℕ) (closed : Bool)
    → read_exact (length xs) (record { bytes = xs ++ ys; closed = closed })
      ≡ (ok xs, record { bytes = ys; closed = closed })
read_exact-++ xs ys closed =
    let enough : leb (length xs) (length (xs ++ ys)) ≡ true =
      le→leb _ _ (omega (arith, length-append xs ys)) in
    rw (enough, take-++ xs ys, drop-++ xs ys) refl

module _ {T : Type 0} (codec : Codec T) where
  read_body-done :
      (value : T) (bytes rest : List ℕ) (closed : Bool)
      → codec.serialize value ≡ coded bytes
      → read_body codec
          (read_exact (length bytes) (record { bytes = bytes ++ rest; closed = closed }))
        ≡ (ok value, record { bytes = rest; closed = closed })
  read_body-done value bytes rest closed e =
      ap (read_body codec) (read_exact-++ bytes rest closed)
      ∙ ap (λ c. (code_result c, record { bytes = rest; closed = closed }))
          (codec.serialize-deserialize value bytes e)

  -- What `write_prefixed` writes, `read_prefixed` reads: it returns the same value and leaves the
  -- bytes that follow on the stream. The conditions: the value is encoded, in fewer than 2^32
  -- bytes, and the codec decodes what it encodes.
  pub write_prefixed-read_prefixed :
      (value : T) (bytes rest : List ℕ) (closed : Bool)
      → codec.serialize value ≡ coded bytes
      → length bytes < u32_mod
      → (write_prefixed codec append_all value [] ≡ (ok tt, prefixed codec bytes))
        × (read_prefixed codec (record { bytes = prefixed codec bytes ++ rest; closed = closed })
            ≡ (ok value, record { bytes = rest; closed = closed }))
  unfolding read_prefixed write_prefixed
  write_prefixed-read_prefixed value bytes rest closed e short =
      let n = length bytes % u32_mod in
      let r : Reader = record { bytes = bytes ++ rest; closed = closed } in
      let same : from_le_bytes (to_le_bytes n) ≡ length bytes =
        le_bytes n (omega (arith, short)) ∙ omega (arith, short) in
      (
        rw e refl,
        ap (read_sized codec) (read_exact-++ (to_le_bytes n) (bytes ++ rest) closed)
            ∙ ap (λ k. read_body codec (read_exact k r)) same
            ∙ read_body-done value bytes rest closed e,
      )

  -- A message whose body is shorter than its prefix says is an error, whatever the codec:
  -- unexpected end of file where the stream is closed, and invalid data where it is open. The
  -- condition: the prefix fits a u32.
  pub read_prefixed-short :
      (n : ℕ) (body : List ℕ) (closed : Bool)
      → n < u32_mod
      → length body < n
      → read_prefixed codec (record { bytes = to_le_bytes n ++ body; closed = closed }) ≡ (
        err (if closed then unexpected_eof else invalid_data),
        record { bytes = []; closed = closed },
      )
  unfolding read_prefixed
  read_prefixed-short n body closed small short =
      let r : Reader = record { bytes = body; closed = closed } in
      let few : leb n (length body) ≡ false = ground (arith, short) in
      ap (read_sized codec) (read_exact-++ (to_le_bytes n) body closed)
      ∙ ap (λ k. read_body codec (read_exact k r)) (le_bytes n small)
      ∙ rw few (by_end closed)
    where
      by_end :
          (c : Bool)
          → read_body codec (
            err (if c then unexpected_eof else would_block),
            record { bytes = []; closed = closed },
          )
            ≡ (
              err (if c then unexpected_eof else invalid_data),
              record { bytes = []; closed = closed },
            )
      by_end true = refl
      by_end false = refl
