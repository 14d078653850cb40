-- ===== src/Net/Io.antt =====
-- `std::io`: the kinds of errors that the code tells apart, and `io::Result`.
pub data ErrorKind : Type 0 where
  broken_pipe connection_aborted connection_reset interrupted invalid_data other timed_out
        unexpected_eof would_block write_zero :
      ErrorKind

pub data IoResult {ℓ} (A : Type ℓ) : Type ℓ where
  ok : A → IoResult A
  err : ErrorKind → IoResult A
