-- ===== src/Policy/Body/Lookup.antt =====
-- What an added or a removed entry of a registry does to the tests of the pipeline
-- (internal/policy/typed_admin.go and contract_admin.go against evaluate.go).
use daxie.Prelude.{
  ◌≡◌, refl, ap, ◌∙◌, inl, inr, Bool, true, not, ◌&&◌, ◌||◌, ◌==◌, Bool-cases, List, [], ◌∷◌, any,
  reject, arith,
}
use daxie.Prelude.Text.{Text, text_eq, text_eq_sound, to_lower, lower_byte, equal_fold, trim_space}
use daxie.Policy.Types.{Address, lower_hex, Check, TypedAllow, ContractAllow}
use daxie.Policy.Stages.Messages.{typed_allow_match, contract_allow_match}
use daxie.Policy.Body.{
  equal_fold_str, same_typed_allow, upsert_typed_allow, remove_typed_allow, same_contract_allow,
  normalize_selector, upsert_contract_allow, remove_contract_allow,
}

pub equal_fold_str-eq : (s t : Text) → equal_fold_str s t ≡ equal_fold s t
unfolding equal_fold_str equal_fold to_lower text_eq
equal_fold_str-eq [] [] = refl
equal_fold_str-eq [] (d ∷ t) = refl
equal_fold_str-eq (c ∷ s) [] = refl
equal_fold_str-eq (c ∷ s) (d ∷ t) =
    ap (λ b. lower_byte c == lower_byte d && b) (equal_fold_str-eq s t)

-- ── keys ──

text_eq_left : (a b q : Text) → text_eq a b ≡ true → text_eq a q ≡ text_eq b q
text_eq_left a b q h = ap (λ i. text_eq i q) (text_eq_sound a b h)

text_eq_join : (a b q : Text) → text_eq a q ≡ true → text_eq b q ≡ true → text_eq a b ≡ true
text_eq_join a b q h k = rw (text_eq_sound b q k) h

-- Removing all entries that are the same as `e` takes away the hits of `e`, and no others.
any-remove :
    {A : Type 0} (same : A → A → Bool) (hit : A → Bool) (e : A)
    → ((x : A) → same x e ≡ true → hit x ≡ hit e)
    → ((x : A) → hit x ≡ true → hit e ≡ true → same x e ≡ true)
    → (l : List A) → any hit (reject (λ x. same x e) l) ≡ (not (hit e) && any hit l)
any-remove same hit e agree join [] = ground arith
any-remove same hit e agree join (x ∷ l) = elim (Bool-cases (same x e)) [
  | inl s ↦ rw s (any-remove same hit e agree join l ∙ ground (arith, agree x s))
  | inr d ↦ rw (d, any-remove same hit e agree join l) (ground (arith, join x))
]

-- ── typed data ──

module _ (req : Check) where
  abbrev pub typed_hit : TypedAllow → Bool
  typed_hit a =
      a.chain_id == req.typed_chain_id
      && equal_fold a.verifying_contract req.typed_verifying
      && text_eq a.primary_type req.typed_primary

  typed_agree : (a e : TypedAllow) → same_typed_allow a e ≡ true → typed_hit a ≡ typed_hit e
  unfolding same_typed_allow equal_fold
  typed_agree a e h = ground (
    arith,
    text_eq_left (to_lower a.verifying_contract) (to_lower e.verifying_contract)
        (to_lower req.typed_verifying),
    text_eq_left a.primary_type e.primary_type req.typed_primary,
  )

  typed_join :
      (a e : TypedAllow) → typed_hit a ≡ true → typed_hit e ≡ true → same_typed_allow a e ≡ true
  unfolding same_typed_allow equal_fold
  typed_join a e h k = ground (
    arith,
    text_eq_join (to_lower a.verifying_contract) (to_lower e.verifying_contract)
        (to_lower req.typed_verifying),
    text_eq_join a.primary_type e.primary_type req.typed_primary,
  )

  typed-upsert :
      (e : TypedAllow) (l : List TypedAllow)
      → any typed_hit (upsert_typed_allow l e) ≡ (typed_hit e || any typed_hit l)
  unfolding upsert_typed_allow
  typed-upsert e [] = refl
  typed-upsert e (a ∷ l) = elim (Bool-cases (same_typed_allow a e)) [
    | inl s ↦ rw s (ground (arith, typed_agree a e s))
    | inr d ↦ rw (d, typed-upsert e l) (ground arith)
  ]

  -- After an entry of the typed-data registry was added, a message passes the registry exactly if it
  -- has the triple of that entry or passed before; after one was removed, exactly if it passed before
  -- and has another triple.
  pub typed_allow_match_laws :
      (e : TypedAllow) (l : List TypedAllow)
      → (typed_allow_match (upsert_typed_allow l e) req
          ≡ (typed_allow_match (e ∷ []) req || typed_allow_match l req))
        × (typed_allow_match (remove_typed_allow l e) req
            ≡ (not (typed_allow_match (e ∷ []) req) && typed_allow_match l req))
  unfolding typed_allow_match remove_typed_allow
  typed_allow_match_laws e l = (
    typed-upsert e l ∙ ground arith,
    any-remove same_typed_allow typed_hit e (λ x. typed_agree x e) (λ x. typed_join x e) l
        ∙ ground arith,
  )

-- ── contract calls ──

module _ (network : Text) (contract : Address) (selector : Text) where
  abbrev pub call_hit : ContractAllow → Bool
  call_hit a =
      equal_fold a.network network
      && equal_fold a.contract (lower_hex contract)
      && text_eq (to_lower (trim_space a.selector)) (to_lower (trim_space selector))

  call_agree : (a e : ContractAllow) → same_contract_allow a e ≡ true → call_hit a ≡ call_hit e
  unfolding same_contract_allow equal_fold normalize_selector
  call_agree a e h = ground (
    arith,
    text_eq_left (to_lower a.network) (to_lower e.network) (to_lower network),
    text_eq_left (to_lower a.contract) (to_lower e.contract) (to_lower (lower_hex contract)),
    text_eq_left (to_lower (trim_space a.selector)) (to_lower (trim_space e.selector))
        (to_lower (trim_space selector)),
  )

  call_join :
      (a e : ContractAllow) → call_hit a ≡ true → call_hit e ≡ true → same_contract_allow a e ≡ true
  unfolding same_contract_allow equal_fold normalize_selector
  call_join a e h k = ground (
    arith,
    text_eq_join (to_lower a.network) (to_lower e.network) (to_lower network),
    text_eq_join (to_lower a.contract) (to_lower e.contract) (to_lower (lower_hex contract)),
    text_eq_join (to_lower (trim_space a.selector)) (to_lower (trim_space e.selector))
        (to_lower (trim_space selector)),
  )

  call-upsert :
      (e : ContractAllow) (l : List ContractAllow)
      → any call_hit (upsert_contract_allow l e) ≡ (call_hit e || any call_hit l)
  unfolding upsert_contract_allow
  call-upsert e [] = refl
  call-upsert e (a ∷ l) = elim (Bool-cases (same_contract_allow a e)) [
    | inl s ↦ rw s (ground (arith, call_agree a e s))
    | inr d ↦ rw (d, call-upsert e l) (ground arith)
  ]

  -- After an entry of the contract registry was added, a call passes the registry exactly if it has
  -- the triple of that entry or passed before; after one was removed, exactly if it passed before and
  -- has another triple.
  pub contract_allow_match_laws :
      (e : ContractAllow) (l : List ContractAllow)
      → (contract_allow_match (upsert_contract_allow l e) network contract selector ≡ (
          contract_allow_match (e ∷ []) network contract selector
          || contract_allow_match l network contract selector))
        × (contract_allow_match (remove_contract_allow l e) network contract selector ≡ (
            not (contract_allow_match (e ∷ []) network contract selector)
            && contract_allow_match l network contract selector))
  unfolding contract_allow_match remove_contract_allow
  contract_allow_match_laws e l = (
    call-upsert e l ∙ ground arith,
    any-remove same_contract_allow call_hit e (λ x. call_agree x e) (λ x. call_join x e) l
        ∙ ground arith,
  )
