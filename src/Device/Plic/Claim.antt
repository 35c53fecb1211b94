-- ===== src/Device/Plic/Claim.antt =====
-- Which interrupt a context offers and claims: `context_best_pending` and `context_claim` of
-- src/device/plic.cpp.
use uotan_riscv_emu_ng.Base.{
  ℕ, zero, suc, ◌+◌, ◌*◌, ◌/◌, ◌%◌, ◌≤◌, ◌<◌, ◌≡◌, ◌≢◌, refl, ap, ap₂, sym, ◌∙◌, Bool, true, false,
  ◌&&◌, ◌||◌, ◌⊎◌, inl, inr,
}
use uotan_riscv_emu_ng.Base.{◌==◌, ltb, leb, if◌then◌else◌, get_or, arith, Bool-cases}
use uotan_riscv_emu_ng.Base.Digits.{truthy-digit}
use uotan_riscv_emu_ng.Device.Plic.{
  Context, Best, eligible, consider, bit_loop, word_loop, context_best_pending,
}

module _ (num_ids : ℕ) (c : Context) where
  -- A source that is pending and not claimed.
  abbrev pub offered : ℕ → Bool
  offered id = eligible num_ids c (id / 32) (id % 32)

  abbrev pub priority_of : ℕ → ℕ
  priority_of id = get_or c.pending_priority id 0

  -- What is best of the sources below `n`: none is offered, or it is offered and none has a higher
  -- priority.
  pub data IsBest (n : ℕ) : Best → Type 0 where
    no_source : ((k : ℕ) → k < n → offered k ≡ false) → IsBest n (record { id = 0; prio = 0 })
    source :
        {id : ℕ}
        → id ≢ 0
        → offered id ≡ true
        → ((k : ℕ) → k < n → offered k ≡ true → priority_of k ≤ priority_of id)
        → IsBest n (record { id = id; prio = priority_of id })

  index : (i j : ℕ) → j < 32 → offered (i * 32 + j) ≡ eligible num_ids c i j
  index i j h = ap₂ (eligible num_ids c) (omega arith) (omega arith)

  consider_lem :
      (i j : ℕ) (b : Best)
      → consider num_ids c i j b ≡ (
          if eligible num_ids c i j && (b.id == 0 || ltb b.prio (priority_of (i * 32 + j)))
          then record { id = i * 32 + j; prio = priority_of (i * 32 + j) }
          else b)
  unfolding consider
  consider_lem i j b = refl

  abbrev better : ℕ → Best → Best
  better n b =
      if offered n && (b.id == 0 || ltb b.prio (priority_of n))
      then record { id = n; prio = priority_of n }
      else b

  below_suc : (k n : ℕ) → k < suc n → (k < n) ⊎ (k ≡ n)
  below_suc k n h = ground arith

  not_first : (n : ℕ) → offered 0 ≡ false → offered n ≡ true → n ≢ 0
  not_first n z e q = absurd (ground (arith, ap offered q))

  none_yet :
      (n : ℕ)
      → ((k : ℕ) → k < n → offered k ≡ false)
      → offered n ≡ false
      → (k : ℕ) → k < suc n
      → offered k ≡ false
  none_yet n f e k l = elim (below_suc k n l) [ inl q ↦ f k q | inr q ↦ ap offered q ∙ e ]

  top :
      (n best : ℕ)
      → ((k : ℕ) → k < n → offered k ≡ true → priority_of k ≤ best)
      → (offered n ≡ true → priority_of n ≤ best)
      → (k : ℕ) → k < suc n
      → offered k ≡ true
      → priority_of k ≤ best
  top n best f e k l o = elim (below_suc k n l) [
    | inl q ↦ f k q o
    | inr q ↦ omega (arith, ap priority_of q, e (ap offered (sym q) ∙ o))
  ]

  -- One more source keeps the best one best.
  better-IsBest : (n : ℕ) (b : Best) → offered 0 ≡ false → IsBest n b → IsBest (suc n) (better n b)
  better-IsBest n b z (no_source f) = elim (Bool-cases (offered n)) [
    | inl e ↦ rw e (
        source (not_first n z e) e
          (top n (priority_of n) (λ k l o. absurd (ground (arith, f k l))) (λ _. omega arith)))
    | inr e ↦ rw e (no_source (none_yet n f e))
  ]
  better-IsBest n b z (source {id = id} nz o f) = elim (Bool-cases (offered n)) [
    | inl e ↦ elim (Bool-cases (id == 0 || ltb (priority_of id) (priority_of n))) [
      | inl q ↦
          rw (e, q)
            (source (not_first n z e) e
              (top n (priority_of n) (λ k l t. ground (arith, f k l t)) (λ _. omega arith)))
      | inr q ↦ rw (e, q) (source nz o (top n (priority_of id) f (λ _. ground arith)))
    ]
    | inr e ↦ rw e (source nz o (top n (priority_of id) f (λ t. absurd (ground arith))))
  ]

  -- Sources that are not offered change nothing.
  extend-IsBest :
      (m n : ℕ) (b : Best) → ((k : ℕ) → m ≤ k → k < n → offered k ≡ false) → IsBest m b → IsBest n b
  extend-IsBest m n b f (no_source g) = no_source λ k l. ground (arith, f k, g k)
  extend-IsBest m n b f (source {id = id} nz o g) = source nz o λ k l t. ground (arith, f k, g k)

  same_end : (m n : ℕ) (b : Best) → m ≡ n → IsBest m b → IsBest n b
  same_end m n b e best = extend-IsBest m n b (λ k l h. absurd (omega arith)) best

  consider-better : (i j : ℕ) (b : Best) → j < 32 → consider num_ids c i j b ≡ better (i * 32 + j) b
  consider-better i j b h = consider_lem i j b ∙ ground (arith, index i j h)

  bit_loop-IsBest :
      (n i j m : ℕ) (b : Best)
      → j + n ≡ 32
      → i * 32 + j + n ≡ m
      → offered 0 ≡ false
      → IsBest (i * 32 + j) b
      → IsBest m (bit_loop num_ids c i n j b)
  unfolding bit_loop
  bit_loop-IsBest zero i j m b h e z best = same_end (i * 32 + j) m b (omega arith) best
  bit_loop-IsBest (suc n) i j m b h e z best =
      bit_loop-IsBest n i (suc j) m (consider num_ids c i j b) (omega arith) (omega arith) z (
        rw (consider-better i j b (omega arith)) (
          same_end (suc (i * 32 + j)) (i * 32 + suc j) (better (i * 32 + j) b) (omega arith)
            (better-IsBest (i * 32 + j) b z best)))

  empty_word :
      (i k : ℕ) → get_or c.pending i 0 ≡ 0 → i * 32 ≤ k → k < (i + 1) * 32 → offered k ≡ false
  empty_word i k e l h = ground (
    arith,
    ap (λ (w : ℕ). get_or c.pending w 0) at_word,
    truthy-digit (k % 32) (get_or c.pending (k / 32) 0),
  )
    where
      at_word : k / 32 ≡ i
      at_word = omega arith

  word_loop-IsBest :
      (n i m : ℕ) (b : Best)
      → (i + n) * 32 ≡ m
      → offered 0 ≡ false
      → IsBest (i * 32) b
      → IsBest m (word_loop num_ids c n i b)
  unfolding word_loop
  word_loop-IsBest zero i m b e z best = same_end (i * 32) m b (omega arith) best
  word_loop-IsBest (suc n) i m b e z best = word_loop-IsBest n (suc i) m _ (omega arith) z next_word
    where
      next_word :
          IsBest (suc i * 32) (if get_or c.pending i 0 == 0 then b else bit_loop num_ids c i 32 0 b)
      next_word = elim (Bool-cases (get_or c.pending i 0 == 0)) [
        | inl q ↦ rw q (
            extend-IsBest (i * 32) (suc i * 32) b
              (λ k l h. empty_word i k (ground arith) l (omega arith)) best)
        | inr q ↦ rw q (
            bit_loop-IsBest 32 i 0 (suc i * 32) b refl (omega arith) z
              (same_end (i * 32) (i * 32 + 0) b (omega arith) best))
      ]

  -- What a context may offer: nothing, if no source that is offered exceeds the threshold, or a
  -- source that is offered, exceeds the threshold, and has the highest priority of those offered.
  pub data IsOffer : ℕ → Type 0 where
    nothing : ((k : ℕ) → offered k ≡ true → priority_of k ≤ c.priority_threshold) → IsOffer 0
    best :
        {id : ℕ}
        → id ≢ 0
        → offered id ≡ true
        → c.priority_threshold < priority_of id
        → ((k : ℕ) → offered k ≡ true → priority_of k ≤ priority_of id)
        → IsOffer id

  beyond : (k : ℕ) → num_ids ≤ k → offered k ≡ false
  beyond k l = ground arith

  answer : Best → ℕ
  answer b = if leb b.prio c.priority_threshold then 0 else b.id

  in_range : (k n : ℕ) → offered k ≡ true → num_ids ≤ n → k < n
  in_range k n o l = ground (arith, beyond k)

  answer-IsOffer : (n : ℕ) (b : Best) → num_ids ≤ n → IsBest n b → IsOffer (answer b)
  unfolding answer
  answer-IsOffer n b l (no_source f) =
      rw nothing_exceeds (nothing λ k o. absurd (ground (arith, f k, in_range k n o l)))
    where
      nothing_exceeds : leb 0 c.priority_threshold ≡ true
      nothing_exceeds = ground arith
  answer-IsOffer n b l (source {id = id} nz o f) =
      elim (Bool-cases (leb (priority_of id) c.priority_threshold)) [
        | inl e ↦ rw e (nothing λ k t. ground (arith, f k, in_range k n t l))
        | inr e ↦ rw e (best nz o (ground arith) λ k t. f k (in_range k n t l) t)
      ]

  -- If source 0 is not offered and every source has a word, a context offers the highest priority
  -- that exceeds its threshold, and 0 exactly if there is none.
  pub context_best_pending-IsOffer :
      (words : ℕ)
      → offered 0 ≡ false
      → num_ids ≤ words * 32
      → IsOffer (context_best_pending num_ids words c)
  unfolding context_best_pending answer
  context_best_pending-IsOffer words z l =
      answer-IsOffer (words * 32) (word_loop num_ids c words 0 (record { id = 0; prio = 0 })) l (
        word_loop-IsBest words 0 (words * 32) (record { id = 0; prio = 0 }) (omega arith) z
          (no_source λ k h. absurd (omega arith)))
