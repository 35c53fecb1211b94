-- ===== src/Device/Plic/Exclusive.antt =====
-- A claimed source is not offered again before it is completed: `context_claim` of
-- src/device/plic.cpp.
use uotan_riscv_emu_ng.Base.{
  ℕ, ◌*◌, ◌/◌, ◌%◌, ◌^◌, ◌≤◌, ◌<◌, ◌≡◌, ◌≢◌, refl, ap, ◌∙◌, Bool, true, false, not, ◌&&◌, ◌||◌,
  List, inl, inr,
}
use uotan_riscv_emu_ng.Base.{
  bit_and, bit_or, ◌==◌, truthy, get_or, get_or-set_self, get_or-set_ne, length, arith, Bool-cases,
}
use uotan_riscv_emu_ng.Base.Digits.{digit-set, truthy-digit}
use uotan_riscv_emu_ng.Device.Plic.{Context, context_best_pending, context_claim, test_bit, set_bit}
use uotan_riscv_emu_ng.Core.State.{Hart}
use uotan_riscv_emu_ng.Device.Plic.Claim.{
  offered, IsOffer, nothing, best, context_best_pending-IsOffer,
}

word_case :
    (word i j : ℕ)
    → truthy (bit_and (bit_or word (2 ^ i)) (2 ^ j)) ≡ (truthy (bit_and word (2 ^ j)) || j == i)
word_case word i j =
    ground (arith, truthy-digit j (bit_or word (2 ^ i)), digit-set i j word, truthy-digit j word)

same_index : (id k : ℕ) → k / 32 ≡ id / 32 → k % 32 == id % 32 ≡ k == id
same_index id k e = ground arith

set_bit-test_bit :
    (words : List ℕ) (id k : ℕ)
    → id / 32 < length words
    → test_bit (set_bit words (id / 32) (2 ^ (id % 32))) (k / 32) (2 ^ (k % 32))
      ≡ (test_bit words (k / 32) (2 ^ (k % 32)) || k == id)
set_bit-test_bit words id k l = elim (Bool-cases (k / 32 == id / 32)) [
  | inl e ↦
      rw (same_word e, get_or-set_self words (id / 32) new 0 l)
        (word_case (get_or words (id / 32) 0) (id % 32) (k % 32)
          ∙ ap (λ (t : Bool). truthy (bit_and (get_or words (id / 32) 0) (2 ^ (k % 32))) || t)
              (same_index id k (same_word e)))
  | inr e ↦ rw (get_or-set_ne words (id / 32) (k / 32) new 0 (other_word e), other e) (ground arith)
]
  where
    new : ℕ
    new = bit_or (get_or words (id / 32) 0) (2 ^ (id % 32))

    same_word : k / 32 == id / 32 ≡ true → k / 32 ≡ id / 32
    same_word e = ground arith

    other_word : k / 32 == id / 32 ≡ false → id / 32 ≢ k / 32
    other_word e q = absurd (ground arith)

    other : k / 32 == id / 32 ≡ false → k == id ≡ false
    other e = ground arith

offer-offered :
    (num_ids : ℕ) (c : Context) (id : ℕ)
    → IsOffer num_ids c id
    → id ≢ 0
    → offered num_ids c id ≡ true
offer-offered num_ids c id (nothing f) nz = absurd (nz refl)
offer-offered num_ids c id (best nz o e f) q = o

offered-range : (num_ids : ℕ) (c : Context) (k : ℕ) → offered num_ids c k ≡ true → k < num_ids
offered-range num_ids c k o = ground arith

module _ (num_ids words : ℕ) (c : Context) (h : Hart) where
  abbrev pub claim_id : ℕ
  claim_id = (context_claim num_ids words c h).0

  abbrev pub after_claim : Context
  after_claim = (context_claim num_ids words c h).1

  claimed_lem :
      (k : ℕ)
      → claim_id / 32 < length c.claimed
      → claim_id ≢ 0
      → offered num_ids after_claim k ≡ (offered num_ids c k && not (k == claim_id))
  unfolding context_claim
  claimed_lem k l nz =
      rw is_source
        (ground (arith, set_bit-test_bit c.claimed (context_best_pending num_ids words c) k l))
    where
      is_source : truthy (context_best_pending num_ids words c) ≡ true
      is_source = ground arith

  claim_id_lem : claim_id ≡ context_best_pending num_ids words c
  unfolding context_claim
  claim_id_lem = refl

  -- If source 0 is not offered and there is a word for every source, then after a claim of a source
  -- the context offers what it did before but for that source.
  pub context_claim-offered :
      (k : ℕ)
      → offered num_ids c 0 ≡ false
      → num_ids ≤ words * 32
      → num_ids ≤ length c.claimed * 32
      → claim_id ≢ 0
      → offered num_ids after_claim k ≡ (offered num_ids c k && not (k == claim_id))
  context_claim-offered k z l n nz = claimed_lem k in_words nz
    where
      is_offered : offered num_ids c claim_id ≡ true
      is_offered = rw claim_id_lem (
          offer-offered num_ids c (context_best_pending num_ids words c)
            (context_best_pending-IsOffer num_ids c words z l) (rw claim_id_lem at nz))

      in_words : claim_id / 32 < length c.claimed
      in_words = omega (arith, offered-range num_ids c claim_id is_offered)
