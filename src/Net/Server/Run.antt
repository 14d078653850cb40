-- ===== src/Net/Server/Run.antt =====
-- How a part of the network thread of private_poker/src/net/server.rs ends: with a value, with an
-- error that ends the thread (`bail!`), or with a panic.
use private_poker.Prelude.{Outcome, done, panic}

pub data Run {ℓ} (A : Type ℓ) : Type ℓ where
  running : A → Run A
  bailed panicked : Run A

infixl 5 ◌>>=◌
abbrev pub ◌>>=◌ {ℓ κ} : {A : Type ℓ} {B : Type κ} → Run A → (A → Run B) → Run B
running a >>= f = f a
bailed >>= f = bailed
panicked >>= f = panicked

abbrev pub lift {ℓ} : {A : Type ℓ} → Outcome A → Run A
lift (done a) = running a
lift panic = panicked
