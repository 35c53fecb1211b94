-- ===== src/Memory/Bytes.antt =====
-- Little-endian numbers in a memory of bytes: the `memcpy` of include/core/dram.hpp, on a
-- little-endian host.
use uotan_riscv_emu_ng.Base.{
  ℕ, zero, suc, ◌+◌, ◌*◌, ◌/◌, ◌%◌, ◌^◌, ◌<◌, ◌≤◌, ◌≡◌, refl, sym, ap, ap₂, ◌∙◌, ◌⊎◌, inl, arith,
  ◌==◌, if◌then◌else◌,
}
use native.Mathlib.Nat.{
  pow-suc, mod-lt, one-le-pow, div-add-mod', mul-add-mod_self_right, mod-eq_of_lt,
}

abbrev pub put_byte : ℕ → ℕ → (ℕ → ℕ) → ℕ → ℕ
put_byte i v f j = if j == i then v else f j

-- The number of `n` bytes from `i` on.
unfoldable pub load : ℕ → (ℕ → ℕ) → ℕ → ℕ
load zero f i = 0
load (suc n) f i = f i + 256 * load n f (i + 1)

unfoldable pub store : ℕ → (ℕ → ℕ) → ℕ → ℕ → ℕ → ℕ
store zero f i v = f
store (suc n) f i v = store n (put_byte i (v % 256) f) (i + 1) (v / 256)

-- A store changes no byte outside its `n`.
pub store-outside : (n : ℕ) (f : ℕ → ℕ) (i v j : ℕ) → (j < i) ⊎ (i + n ≤ j) → store n f i v j ≡ f j
unfolding store
store-outside zero f i v j h = refl
store-outside (suc n) f i v j h =
    store-outside n (put_byte i (v % 256) f) (i + 1) (v / 256) j (ground (arith, h))
    ∙ ground (arith, h)

scaled : (n q : ℕ) → 256 * (q * 256 ^ n) ≡ q * 256 ^ suc n
scaled n q = omega (arith, ap (λ (u : ℕ). q * u) (pow-suc 256 n))

lowest_byte : (n v : ℕ) → v % 256 + 256 * (v / 256 % 256 ^ n) ≡ v % 256 ^ suc n
lowest_byte n v = sym (
    ap (λ (t : ℕ). t % 256 ^ suc n) parts
    ∙ mul-add-mod_self_right (v / 256 / 256 ^ n) (256 ^ suc n) _
    ∙ mod-eq_of_lt (omega (arith, pow-suc 256 n, small)))
  where
    small : v / 256 % 256 ^ n < 256 ^ n
    small = mod-lt (v / 256) (one-le-pow n 256 (omega arith))

    parts : v ≡ v / 256 / 256 ^ n * 256 ^ suc n + (v % 256 + 256 * (v / 256 % 256 ^ n))
    parts = omega (arith, div-add-mod' (v / 256) (256 ^ n), scaled n (v / 256 / 256 ^ n))

-- What is stored is loaded, cut to its bytes.
pub load-store : (n : ℕ) (f : ℕ → ℕ) (i v : ℕ) → load n (store n f i v) i ≡ v % 256 ^ n
unfolding load store
load-store zero f i v = omega arith
load-store (suc n) f i v =
    ap₂ (λ (x y : ℕ). x + 256 * y)
      (store-outside n (put_byte i (v % 256) f) (i + 1) (v / 256) i (inl (omega arith))
        ∙ ground arith)
      (load-store n (put_byte i (v % 256) f) (i + 1) (v / 256))
    ∙ lowest_byte n v

pub load-agree :
    (n : ℕ) (f g : ℕ → ℕ) (i : ℕ)
    → ((j : ℕ) → i ≤ j → j < i + n → f j ≡ g j)
    → load n f i ≡ load n g i
unfolding load
load-agree zero f g i h = refl
load-agree (suc n) f g i h =
    ap₂ (λ (x y : ℕ). x + 256 * y) (h i (omega arith) (omega arith))
      (load-agree n f g (i + 1) λ j l k. h j (omega arith) (omega arith))
