-- ===== src/Prelude/Fault.antt =====
-- Code that may follow a NULL or dangling pointer: `none` is such a fault. Heaps by address.
use Prim.Native.Nat.{ℕ}
use mathlib.Core.Option.{Option, none, some}
use mathlib.Core.Path.{◌≡◌}
use mathlib.Core.Logic.{◌≢◌}
use native.Mathlib.Omega.{arith}
use multi_client_chat_server.Prelude.Tests.{◌==◌, if◌then◌else◌}

infixl 5 ◌>>=◌
abbrev pub ◌>>=◌ {ℓ κ} : {A : Type ℓ} {B : Type κ} → Option A → (A → Option B) → Option B
none >>= f = none
some a >>= f = f a

module _ {ℓ} {A : Type ℓ} where
  abbrev pub update_at : (ℕ → Option A) → ℕ → Option A → ℕ → Option A
  update_at m a v b = if a == b then v else m b

  pub update_at_self : (m : ℕ → Option A) (a : ℕ) (v : Option A) → update_at m a v a ≡ v
  update_at_self m a v = ground arith

  pub update_at_ne : (m : ℕ → Option A) (a b : ℕ) (v : Option A) → a ≢ b → update_at m a v b ≡ m b
  update_at_ne m a b v h = ground arith
