-- ===== src/Policy/Retry/Earliest.antt =====
-- The entry whose ageing out lets a refused debit fit (internal/policy/policy.go,
-- `refineRetryAfter`).
use daxie.Prelude.{
  ℕ, zero, suc, ◌+◌, ◌-◌, ◌≤◌, ◌<◌, ◌≡◌, ◌⊎◌, ◌≢◌, refl, subst, some-injective, sym, ap, ◌∙◌, inl,
  inr, true, Bool-cases, some, List, [], ◌∷◌, ◌++◌, length, All, arith, ltb, ltb-false→le, ltb→lt,
  is_some,
}
use daxie.Prelude.Int.{pos}
use daxie.Policy.Limits.{exceeds}
use daxie.Policy.Types.{Instant}
use daxie.Policy.Retry.{WindowEntry, total_wei, bubble, sort_rounds, sort_window, first_fit}

abbrev pub NotBefore : Instant → WindowEntry → Type 0
NotBefore k w = k ≤ w.ts

-- Oldest first.
abbrev pub Sorted : List WindowEntry → Type 0
Sorted [] = Unit
Sorted (w ∷ ws) = All (NotBefore w.ts) ws × Sorted ws

bubble-All :
    (k : Instant) (w : WindowEntry) (xs : List WindowEntry)
    → k ≤ w.ts
    → All (NotBefore k) xs
    → (k ≤ (bubble w xs).0.ts) × All (NotBefore k) (bubble w xs).1
unfolding bubble
bubble-All k w [] h all = (h, tt)
bubble-All k w (x ∷ xs) h all = elim (Bool-cases (ltb x.ts w.ts)) [
  | inl earlier ↦ let (a, b) = bubble-All k x xs all.0 all.1 in rw earlier (a, (h, b))
  | inr later ↦ let (a, b) = bubble-All k w xs h all.1 in rw later (a, (all.0, b))
]

All-trans :
    (j k : Instant) (xs : List WindowEntry) → j ≤ k → All (NotBefore k) xs → All (NotBefore j) xs
All-trans j k [] h all = tt
All-trans j k (x ∷ xs) h all = (omega (arith, all.0), All-trans j k xs h all.1)

bubble-min :
    (w : WindowEntry) (xs : List WindowEntry)
    → ((bubble w xs).0.ts ≤ w.ts) × All (NotBefore (bubble w xs).0.ts) (bubble w xs).1
unfolding bubble
bubble-min w [] = (omega arith, tt)
bubble-min w (x ∷ xs) = elim (Bool-cases (ltb x.ts w.ts)) [
  | inl earlier ↦
      let (a, b) = bubble-min x xs in
      let lt = ltb→lt x.ts w.ts earlier in
      rw earlier (omega (arith, a, lt), (omega (arith, a, lt), b))
  | inr later ↦
      let (a, b) = bubble-min w xs in
      let le = ltb-false→le x.ts w.ts later in rw later (a, (omega (arith, a, le), b))
]

bubble-total :
    (w : WindowEntry) (xs : List WindowEntry)
    → ((bubble w xs).0.wei + total_wei (bubble w xs).1 ≡ w.wei + total_wei xs)
      × (length (bubble w xs).1 ≡ length xs)
unfolding bubble total_wei
bubble-total w [] = (refl, refl)
bubble-total w (x ∷ xs) = elim (Bool-cases (ltb x.ts w.ts)) [
  | inl earlier ↦ let (a, b) = bubble-total x xs in rw earlier (omega (arith, a), ap suc b)
  | inr later ↦ let (a, b) = bubble-total w xs in rw later (omega (arith, a), ap suc b)
]

sort_rounds-All :
    (k : Instant) (n : ℕ) (ws : List WindowEntry)
    → All (NotBefore k) ws
    → All (NotBefore k) (sort_rounds n ws)
unfolding sort_rounds
sort_rounds-All k zero [] h = tt
sort_rounds-All k (suc n) [] h = tt
sort_rounds-All k zero (w ∷ ws) h = h
sort_rounds-All k (suc n) (w ∷ ws) h =
    let (a, b) = bubble-All k w ws h.0 h.1 in (a, sort_rounds-All k n (bubble w ws).1 b)

sort_rounds-Sorted : (n : ℕ) (ws : List WindowEntry) → length ws ≤ n → Sorted (sort_rounds n ws)
unfolding sort_rounds
sort_rounds-Sorted zero [] h = tt
sort_rounds-Sorted (suc n) [] h = tt
sort_rounds-Sorted zero (w ∷ ws) h = absurd (omega arith)
sort_rounds-Sorted (suc n) (w ∷ ws) h = (
  sort_rounds-All _ n (bubble w ws).1 (bubble-min w ws).1,
  sort_rounds-Sorted n (bubble w ws).1 (omega (arith, (bubble-total w ws).1)),
)

sort_rounds-total : (n : ℕ) (ws : List WindowEntry) → total_wei (sort_rounds n ws) ≡ total_wei ws
unfolding sort_rounds total_wei
sort_rounds-total zero [] = refl
sort_rounds-total (suc n) [] = refl
sort_rounds-total zero (w ∷ ws) = refl
sort_rounds-total (suc n) (w ∷ ws) =
    omega (arith, sort_rounds-total n (bubble w ws).1, (bubble-total w ws).0)

-- The list is cut at the entry: what comes after it leaves room for the debit, and what comes after
-- the entry before it does not.
abbrev pub Cut : ℕ → ℕ → List WindowEntry → WindowEntry → Type 0
Cut debit l ws w =
    (before after : List WindowEntry) × (ws ≡ before ++ w ∷ after)
    × (total_wei after + debit ≤ l)
    × ((before ≡ []) ⊎ (l < w.wei + total_wei after + debit))

split_total :
    (xs after : List WindowEntry) (w : WindowEntry)
    → xs ≡ w ∷ after
    → total_wei xs ≡ w.wei + total_wei after
unfolding total_wei
split_total xs after w e = ap total_wei e

Cut-cons :
    (debit l : ℕ) (x w : WindowEntry) (xs : List WindowEntry)
    → l < total_wei xs + debit
    → Cut debit l xs w
    → Cut debit l (x ∷ xs) w
Cut-cons debit l x w xs over (before, after, split, room, inl first) =
    let all : xs ≡ w ∷ after = split ∙ ap (λ b. b ++ w ∷ after) first in
    (
      x ∷ before,
      after,
      ap (λ ys. x ∷ ys) split,
      room,
      inr (omega (arith, over, split_total xs after w all)),
    )
Cut-cons debit l x w xs over (before, after, split, room, inr short) =
    (x ∷ before, after, ap (λ ys. x ∷ ys) split, room, inr short)

first_fit-Cut :
    (remaining debit l : ℕ) (ws : List WindowEntry) (w : WindowEntry)
    → remaining ≡ total_wei ws
    → first_fit remaining debit (pos l) ws ≡ some w
    → Cut debit l ws w
unfolding first_fit total_wei exceeds
first_fit-Cut remaining debit l [] w r h = cc
first_fit-Cut remaining debit l (x ∷ xs) w r h =
    elim (Bool-cases (ltb l (remaining - x.wei + debit))) [
      | inl over ↦
          let skip : first_fit remaining debit (pos l) (x ∷ xs)
              ≡ first_fit (remaining - x.wei) debit (pos l) xs =
            rw over refl in
          let left : remaining - x.wei ≡ total_wei xs = omega (arith, r) in
          Cut-cons debit l x w xs (omega (arith, left, ltb→lt l (remaining - x.wei + debit) over))
            (first_fit-Cut (remaining - x.wei) debit l xs w left (sym skip ∙ h))
      | inr fits ↦
          let take_it : first_fit remaining debit (pos l) (x ∷ xs) ≡ some x = rw fits refl in
          subst (Cut debit l (x ∷ xs)) (some-injective x w (sym take_it ∙ h)) (
            [],
            xs,
            refl,
            omega (arith, r, ltb-false→le l (remaining - x.wei + debit) fits),
            inl refl,
          )
    ]

-- For a natural limit, the entry that the walk over the sorted window finds is the oldest that it
-- is enough to wait for: the walk goes through all entries oldest first, what comes after the
-- entry leaves room for the debit, and unless the entry is the first, not waiting for it would
-- leave no room.
pub first_fit-sort_window :
    (ws : List WindowEntry) (debit l : ℕ) (w : WindowEntry)
    → first_fit (total_wei ws) debit (pos l) (sort_window ws) ≡ some w
    → Sorted (sort_window ws)
      × (total_wei (sort_window ws) ≡ total_wei ws)
      × Cut debit l (sort_window ws) w
unfolding sort_window
first_fit-sort_window ws debit l w h =
    let same = sort_rounds-total (length ws) ws in
    (
      sort_rounds-Sorted (length ws) ws (omega arith),
      same,
      first_fit-Cut (total_wei ws) debit l (sort_rounds (length ws) ws) w (sym same) h,
    )

first_fit-found :
    (remaining debit l : ℕ) (ws : List WindowEntry)
    → remaining ≡ total_wei ws
    → debit ≤ l
    → ws ≢ []
    → is_some (first_fit remaining debit (pos l) ws) ≡ true
unfolding first_fit total_wei exceeds
first_fit-found remaining debit l [] r h n = absurd (n refl)
first_fit-found remaining debit l (x ∷ []) r h n = ground arith
first_fit-found remaining debit l (x ∷ y ∷ xs) r h n =
    elim (Bool-cases (ltb l (remaining - x.wei + debit))) [
      | inl over ↦
          rw over
            (first_fit-found (remaining - x.wei) debit l (y ∷ xs) (omega (arith, r)) h (λ e. cc))
      | inr fits ↦ rw fits refl
    ]

sort_rounds-ne-nil : (n : ℕ) (ws : List WindowEntry) → ws ≢ [] → sort_rounds n ws ≢ []
unfolding sort_rounds
sort_rounds-ne-nil zero [] h = h
sort_rounds-ne-nil (suc n) [] h = h
sort_rounds-ne-nil zero (w ∷ ws) h = h
sort_rounds-ne-nil (suc n) (w ∷ ws) h = λ e. cc

-- Where the window has an entry and the debit alone is within a natural limit, the walk over the
-- sorted window finds an entry to wait for.
pub first_fit-finds :
    (ws : List WindowEntry) (debit l : ℕ)
    → ws ≢ []
    → debit ≤ l
    → is_some (first_fit (total_wei ws) debit (pos l) (sort_window ws)) ≡ true
unfolding sort_window
first_fit-finds ws debit l n h =
    first_fit-found (total_wei ws) debit l (sort_rounds (length ws) ws)
      (sym (sort_rounds-total (length ws) ws)) h (sort_rounds-ne-nil (length ws) ws n)
