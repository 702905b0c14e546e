-- ===== src/Policy/Engine/Accounts.antt =====
-- The accounts whose windows are added up (internal/policy/policy.go, `networkAccounts`).
use daxie.Prelude.{
  ◌≡◌, ◌≢◌, refl, inl, inr, false, ◌||◌, List, [], ◌∷◌, ◌++◌, any, arith, All, All-append, All-map,
  Exists, any-true, any-false, Exists-map, Bool-cases,
}
use daxie.Prelude.Text.{text_eq, text_eq_sound, text_eq_refl}
use daxie.Policy.Types.{Address, zero_address}
use daxie.Policy.Engine.{add_account, add_accounts, network_accounts}

-- No address twice.
abbrev pub Distinct : List Address → Type 0
Distinct [] = Unit
Distinct (a ∷ as_) = All (λ b. a ≢ b) as_ × Distinct as_

Distinct-snoc :
    (as_ : List Address) (a : Address)
    → Distinct as_
    → All (λ b. b ≢ a) as_
    → Distinct (as_ ++ a ∷ [])
Distinct-snoc [] a d h = (tt, tt)
Distinct-snoc (b ∷ as_) a d h =
    (All-append (λ c. b ≢ c) as_ (a ∷ []) d.0 (h.0, tt), Distinct-snoc as_ a d.1 h.1)

differ : (b a : Address) → text_eq b a ≡ false → b ≢ a
differ b a h = ground (arith, text_eq_refl a)

absent :
    (as_ : List Address) (a : Address) → any (λ b. text_eq b a) as_ ≡ false → All (λ b. b ≢ a) as_
absent as_ a h = All-map as_ (λ b f. differ b a f) (any-false (λ b. text_eq b a) as_ h)

add_account-Distinct :
    (out : List Address) (a : Address) → Distinct out → Distinct (add_account out a)
unfolding add_account
add_account-Distinct out a d =
    elim (Bool-cases (text_eq a zero_address || any (λ b. text_eq b a) out)) [
      | inl skip ↦ rw skip d
      | inr new ↦ rw new (Distinct-snoc out a d (absent out a (ground arith)))
    ]

add_accounts-Distinct : (out as_ : List Address) → Distinct out → Distinct (add_accounts out as_)
unfolding add_accounts
add_accounts-Distinct out [] d = d
add_accounts-Distinct out (a ∷ as_) d =
    add_accounts-Distinct (add_account out a) as_ (add_account-Distinct out a d)

-- No account is counted twice: the list of the network's accounts has each address once.
pub network_accounts-Distinct :
    (hooked : List Address) (signer : Address) → Distinct (network_accounts hooked signer)
unfolding network_accounts
network_accounts-Distinct hooked signer =
    add_account-Distinct (add_accounts [] hooked) signer (add_accounts-Distinct [] hooked tt)

Exists-snoc : (out : List Address) (a : Address) → Exists (λ b. b ≡ a) (out ++ a ∷ [])
Exists-snoc [] a = Exists.here refl
Exists-snoc (b ∷ out) a = Exists.there (Exists-snoc out a)

add_account-Exists :
    (out : List Address) (a : Address) → a ≢ zero_address → Exists (λ b. b ≡ a) (add_account out a)
unfolding add_account
add_account-Exists out a nz = elim (Bool-cases (text_eq a zero_address)) [
  | inl z ↦ absurd (nz (text_eq_sound a zero_address z))
  | inr q ↦ elim (Bool-cases (any (λ b. text_eq b a) out)) [
    | inl old ↦
        rw (q, old)
          (Exists-map out (λ b h. text_eq_sound b a h) (any-true (λ b. text_eq b a) out old))
    | inr new ↦ rw (q, new) (Exists-snoc out a)
  ]
]

-- A signing account that is not the zero address is counted, whether the keystore lists it or not.
pub network_accounts-signer :
    (hooked : List Address) (signer : Address)
    → signer ≢ zero_address
    → Exists (λ a. a ≡ signer) (network_accounts hooked signer)
unfolding network_accounts
network_accounts-signer hooked signer nz = add_account-Exists (add_accounts [] hooked) signer nz
