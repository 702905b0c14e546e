-- ===== src/Policy/Engine/Budget.antt =====
-- The spend window over all accounts, as a function of what the counter files hold
-- (internal/policy/policy.go, `aggregateWindow` and `windowFor`).
use daxie.Prelude.{
  ℕ, ◌+◌, ◌≡◌, ◌≢◌, refl, sym, ap, ◌∙◌, Option, none, some, List, [], ◌∷◌, arith, All, All-map,
  Exists,
}
use daxie.Prelude.Results.{Result, ok, err}
use daxie.Prelude.Text.{Text}
use daxie.Policy.Types.{Address, Instant}
use daxie.Policy.Counter.{CounterFile, sum_window}
use daxie.Policy.Counter.Entries.{text_eq_ne}
use daxie.Policy.Store.{Store, Error, after, ◌>>=◌, pure, load_counter}
use daxie.Policy.Store.Inversion.{held}
use daxie.Policy.Engine.{window_of, aggregate_window}
use daxie.Policy.Engine.Accounts.{Distinct}

abbrev add_result : ℕ → Result Error ℕ → Result Error ℕ
add_result n (ok m) = ok (n + m)
add_result n (err e) = err e

abbrev add_read : (CounterFile → ℕ) → Result Error CounterFile → Result Error ℕ → Result Error ℕ
add_read w (ok cf) t = add_result (w cf) t
add_read w (err e) t = err e

-- The sum over the accounts, of what the store holds.
unfoldable pub total :
    (Address → Result Error CounterFile)
    → List Address
    → Instant
    → Option (Address × Text)
    → Result Error ℕ
total reads [] now exclude = ok 0
total reads (a ∷ as_) now exclude =
    add_read (λ cf. window_of cf a now exclude) (reads a) (total reads as_ now exclude)

add_result-after :
    (n : ℕ) (t : Result Error ℕ) (st : Store)
    → after (λ rest. pure (n + rest)) (t, st) ≡ (add_result n t, st)
add_result-after n (ok m) st = refl
add_result-after n (err e) st = refl

aggregate-step :
    (network : Text) (a : Address) (as_ : List Address) (now : Instant)
    (exclude : Option (Address × Text)) (st : Store) (t : Result Error ℕ)
    → aggregate_window network as_ now exclude st ≡ (t, st)
    → (r : Result Error CounterFile)
    → after
        (λ cf.
          (aggregate_window network as_ now exclude >>= λ rest.
          pure (window_of cf a now exclude + rest)))
        (r, st)
      ≡ (add_read (λ cf. window_of cf a now exclude) r t, st)
aggregate-step network a as_ now exclude st t h (ok cf) =
    ap (after (λ rest. pure (window_of cf a now exclude + rest))) h
    ∙ add_result-after (window_of cf a now exclude) t st
aggregate-step network a as_ now exclude st t h (err e) = refl

-- The loop reads the counters and writes nothing.
pub aggregate-total :
    (network : Text) (as_ : List Address) (now : Instant) (exclude : Option (Address × Text))
    (st : Store)
    → aggregate_window network as_ now exclude st ≡ (total (held st network) as_ now exclude, st)
unfolding aggregate_window load_counter total
aggregate-total network [] now exclude st = refl
aggregate-total network (a ∷ as_) now exclude st =
    aggregate-step network a as_ now exclude st _ (aggregate-total network as_ now exclude st)
      (held st network a)

-- An entry of the signing account that is left out, if any.
abbrev pub about : Address → Option Text → Option (Address × Text)
about signer none = none
about signer (some id) = some (signer, id)

add_read-same :
    (r : Result Error CounterFile) {w w' : CounterFile → ℕ}
    → ((cf : CounterFile) → w cf ≡ w' cf)
    → (t : Result Error ℕ) → add_read w r t ≡ add_read w' r t
add_read-same (ok cf) h t = ap (λ n. add_result n t) (h cf)
add_read-same (err e) h t = refl

-- Inversion of a sum that succeeds.
add_read-ok :
    (w : CounterFile → ℕ) (r : Result Error CounterFile) (t : Result Error ℕ) (n : ℕ)
    → add_read w r t ≡ ok n
    → (cf : CounterFile) × (m : ℕ) × (r ≡ ok cf) × (t ≡ ok m) × (n ≡ w cf + m)
add_read-ok w (ok cf) (ok m) n h = (cf, m, refl, refl, ground arith)
add_read-ok w (ok cf) (err e) n h = cc
add_read-ok w (err e) t n h = cc

ok_inj : {a b : CounterFile} → ◌≡◌ {A = Result Error CounterFile} (ok a) (ok b) → a ≡ b
ok_inj h = cc

All-Exists :
    {a s : Address} (as_ : List Address) → All (λ b. a ≢ b) as_ → Exists (λ b. b ≡ s) as_ → a ≢ s
All-Exists [] h m = elim m [ ]
All-Exists (b ∷ as_) h (Exists.here e) = λ q. h.0 (q ∙ sym e)
All-Exists (b ∷ as_) h (Exists.there m) = All-Exists as_ h.1 m

window_of-other :
    (cf : CounterFile) (a signer : Address) (now : Instant) (ex : Option Text)
    → a ≢ signer
    → window_of cf a now (about signer ex) ≡ window_of cf a now none
unfolding window_of
window_of-other cf a signer now none h = refl
window_of-other cf a signer now (some id) h = rw (text_eq_ne a signer h) (ground arith)

module _ (signer : Address) (now : Instant) (ex : Option Text)
    (reads reads' : Address → Result Error CounterFile)
    (same : (b : Address) → b ≢ signer → reads' b ≡ reads b) where
  total-other :
      (as_ : List Address)
      → All (λ b. b ≢ signer) as_
      → total reads' as_ now none ≡ total reads as_ now (about signer ex)
  unfolding total
  total-other [] h = refl
  total-other (a ∷ as_) h =
      ap (λ r. add_read (λ cf. window_of cf a now none) r (total reads' as_ now none)) (same a h.0)
      ∙ ap (add_read (λ cf. window_of cf a now none) (reads a)) (total-other as_ h.1)
      ∙ add_read-same (reads a) (λ cf. sym (window_of-other cf a signer now ex h.0)) _

  -- A change of the signing account's file alone changes the total by that file's window.
  pub total-change :
      (cf cf' : CounterFile)
      → reads signer ≡ ok cf
      → reads' signer ≡ ok cf'
      → (as_ : List Address) (t : ℕ) → Distinct as_
      → Exists (λ b. b ≡ signer) as_
      → total reads as_ now (about signer ex) ≡ ok t
      → (t' : ℕ) × (total reads' as_ now none ≡ ok t')
        × (t' + window_of cf signer now (about signer ex) ≡ t + sum_window cf' now)
  unfolding total window_of
  total-change cf cf' r r' [] t d m h = elim m [ ]
  total-change cf cf' r r' (a ∷ as_) t d (Exists.here e) h =
      let away : All (λ b. b ≢ signer) as_ = All-map as_ (λ b n q. n (e ∙ sym q)) d.0 in
      let (cf0, m, ra, tm, sum) =
        add_read-ok (λ c. window_of c a now (about signer ex)) (reads a) _ t h in
      let found : cf0 ≡ cf = ok_inj (sym ra ∙ ap reads e ∙ r) in
      let mine : window_of cf0 a now (about signer ex) ≡ window_of cf signer now (about signer ex) =
        ap (λ c. window_of c a now (about signer ex)) found
        ∙ ap (λ b. window_of cf b now (about signer ex)) e in
      (
        sum_window cf' now + m,
        ap (λ x. add_read (λ c. window_of c a now none) x (total reads' as_ now none))
              (ap reads' e ∙ r')
            ∙ ap (add_result (window_of cf' a now none)) (total-other as_ away ∙ tm),
        omega (arith, sum, mine),
      )
  total-change cf cf' r r' (a ∷ as_) t d (Exists.there m) h =
      let differ : a ≢ signer = All-Exists as_ d.0 m in
      let (cf0, n, ra, tn, sum) =
        add_read-ok (λ c. window_of c a now (about signer ex)) (reads a) _ t h in
      let (t', e', eq) = total-change cf cf' r r' as_ n d.1 m tn in
      (
        window_of cf0 a now none + t',
        ap (λ x. add_read (λ c. window_of c a now none) x (total reads' as_ now none))
              (same a differ ∙ ra)
            ∙ ap (add_result (window_of cf0 a now none)) e',
        omega (arith, sum, eq, window_of-other cf0 a signer now ex differ),
      )
