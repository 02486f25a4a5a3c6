-- ===== src/A64/Memory.antt =====
-- Loads behind stores.
use tiny_wasm.Base.{
  ℕ, zero, suc, ◌+◌, ◌*◌, ◌/◌, ◌%◌, ◌^◌, ◌≤◌, ◌<◌, ◌≡◌, refl, ◌==◌, ◌⊎◌, arith, if◌then◌else◌,
}
use tiny_wasm.A64.{load, store}

-- The low `n` bytes of a value.
unfoldable pub low_bytes : ℕ → ℕ → ℕ
low_bytes zero v = 0
low_bytes (suc n) v = v % 256 + 256 * low_bytes n (v / 256)

pub low_bytes-four : (v : ℕ) → low_bytes 4 v ≡ v % 2 ^ 32
unfolding low_bytes
low_bytes-four v = omega arith

pub low_bytes-eight : (v : ℕ) → low_bytes 8 v ≡ v % 2 ^ 64
unfolding low_bytes
low_bytes-eight v = omega arith

-- A store leaves the bytes outside it.
pub store_outside : (n a v : ℕ) (m : ℕ → ℕ) (b : ℕ) → (b < a) ⊎ (a + n ≤ b) → store n a v m b ≡ m b
unfolding store
store_outside zero a v m b h = refl
store_outside (suc n) a v m b h =
    ground (arith, store_outside n (a + 1) (v / 256) (λ (c : ℕ). if c == a then v % 256 else m c) b)

pub load-store_apart :
    (k b n a v : ℕ) (m : ℕ → ℕ) → (b + k ≤ a) ⊎ (a + n ≤ b) → load k b (store n a v m) ≡ load k b m
unfolding load
load-store_apart zero b n a v m h = refl
load-store_apart (suc k) b n a v m h =
    ground (arith, store_outside n a v m b, load-store_apart k (b + 1) n a v m)

-- A load of the first bytes of a store.
pub load-store : (k n a v : ℕ) (m : ℕ → ℕ) → k ≤ n → load k a (store n a v m) ≡ low_bytes k v
unfolding load store low_bytes
load-store zero n a v m h = refl
load-store (suc k) zero a v m h = absurd (omega arith)
load-store (suc k) (suc n) a v m h = ground (
  arith,
  store_outside n (a + 1) (v / 256) (λ (c : ℕ). if c == a then v % 256 else m c) a,
  load-store k n (a + 1) (v / 256) (λ (c : ℕ). if c == a then v % 256 else m c),
)

-- Memories that agree on the bytes that are loaded.
pub load-same :
    (n a : ℕ) (m k : ℕ → ℕ) → ((b : ℕ) → a ≤ b → b < a + n → k b ≡ m b) → load n a k ≡ load n a m
unfolding load
load-same zero a m k h = refl
load-same (suc n) a m k h =
    let first = h a (omega arith) (omega arith) in
    let rest = load-same n (a + 1) m k (λ b p q. h b (omega arith) (omega arith)) in
    rw (first, rest) refl
