-- ===== src/Policy/TypedData.antt =====
-- The classes of typed data, and what a recogniser makes of the fields that it reads
-- (internal/policy/recognizers.go, TypedDataClass of internal/policy/check.go).
use daxie.Prelude.{
  ℕ, Bool, true, false, not, ◌&&◌, ◌||◌, ◌==◌, Option, none, some, List, [], ◌∷◌, ltb,
  if◌then◌else◌, any,
}
use daxie.Prelude.Int.{ℤ, pos, negsuc}
use daxie.Prelude.Text.{Text, codes, text_eq}
use daxie.Policy.Stages.Amounts.{uint256_max}
use daxie.Policy.Message.{Fields, has_exact_keys, is_number, is_max}

-- ── the classes ──

pub record SpendToken : Type 0 where
  pub token : Text
  pub unlimited : Bool

pub record TypedDataClass : Type 0 where
  pub is_spend : Bool
  pub kind : Text
  pub spender : Text
  pub unlimited : Bool
  pub chain_id : ℤ
  pub verifying : Text
  pub primary : Text
  pub denied : Bool
  pub deny_reason : Text
  pub tokens : List SpendToken

abbrev pub no_class : TypedDataClass
no_class = record {
  is_spend = false;
  kind = [];
  spender = [];
  unlimited = false;
  chain_id = pos 0;
  verifying = [];
  primary = [];
  denied = false;
  deny_reason = [];
  tokens = [];
}

abbrev pub spend_class : Text → Bool → List SpendToken → TypedDataClass
spend_class spender unlimited tokens = record no_class {
  is_spend = true;
  kind = codes "approve";
  spender = spender;
  unlimited = unlimited;
  tokens = tokens;
}

abbrev pub or_empty : Option Text → Text
or_empty none = []
or_empty (some s) = s

-- ── one class from the recognisers ──

abbrev pub single : Text → SpendToken → TypedDataClass
single spender t = spend_class spender t.unlimited (t ∷ [])

abbrev pub batch : Text → List SpendToken → TypedDataClass
batch spender ts = spend_class spender (any (λ (t : SpendToken). t.unlimited) ts) ts

-- What the domain adds to a class.
abbrev pub in_domain : Text → ℤ → Text → TypedDataClass → TypedDataClass
in_domain primary chain verifying c = record c {
  chain_id = chain;
  verifying = verifying;
  primary = primary;
}

-- The token of the two permits is the contract of the domain.
abbrev pub on_verifying : Text → TypedDataClass → TypedDataClass
on_verifying verifying c = record c {
  tokens = record { token = verifying; unlimited = c.unlimited } ∷ [];
}

unfoldable pub choose_class :
    Text
    → ℤ
    → Text
    → Option TypedDataClass
    → Option TypedDataClass
    → Option TypedDataClass
    → TypedDataClass
choose_class primary chain verifying (some c) _ _ =
    in_domain primary chain verifying (on_verifying verifying c)
choose_class primary chain verifying none (some c) _ =
    in_domain primary chain verifying (on_verifying verifying c)
choose_class primary chain verifying none none (some c) = in_domain primary chain verifying c
choose_class primary chain verifying none none none = no_class

abbrev pub is_positive : ℤ → Bool
is_positive (pos n) = ltb 0 n
is_positive (negsuc n) = false

abbrev pub differs : ℤ → ℤ → Bool
differs (pos a) (pos b) = not (a == b)
differs (negsuc a) (negsuc b) = not (a == b)
differs (pos a) (negsuc b) = true
differs (negsuc a) (pos b) = true

abbrev pub off_chain : ℤ → TypedDataClass → Bool
off_chain expected c =
    c.is_spend && is_positive expected && is_positive c.chain_id && differs c.chain_id expected

unfoldable pub check_chain : ℤ → TypedDataClass → TypedDataClass
check_chain expected c =
    if off_chain expected c
    then record c { denied = true; deny_reason = codes "chain_mismatch" }
    else c

-- ── what a recogniser makes of the fields it reads ──

unfoldable pub is_eip2612 : Text → Fields → Bool
unfolding has_exact_keys text_eq
is_eip2612 primary m =
    text_eq primary (codes "Permit")
    && has_exact_keys m
        (codes "owner" ∷ codes "spender" ∷ codes "value" ∷ codes "nonce" ∷ codes "deadline" ∷ [])

unfoldable pub is_dai_permit : Text → Fields → Bool
unfolding has_exact_keys text_eq
is_dai_permit primary m =
    text_eq primary (codes "Permit")
    && has_exact_keys m
        (codes "holder" ∷ codes "spender" ∷ codes "nonce" ∷ codes "expiry" ∷ codes "allowed" ∷ [])

-- Unlimited by its value or by its deadline.
unfoldable pub eip2612_class : Option Text → Option ℤ → Option ℤ → Option TypedDataClass
unfolding is_max
eip2612_class none value deadline = none
eip2612_class (some s) none deadline = none
eip2612_class (some s) (some v) deadline =
    some (spend_class s (is_number uint256_max v || is_max deadline) [])

unfoldable pub dai_class : Option Text → Option Bool → Option TypedDataClass
dai_class none allowed = none
dai_class (some s) none = none
dai_class (some s) (some b) = some (spend_class s b [])

unfoldable pub token_entry : ℕ → Option Text → Option ℤ → Option SpendToken
token_entry sentinel none amount = none
token_entry sentinel (some t) none = none
token_entry sentinel (some t) (some n) =
    some (record { token = t; unlimited = is_number sentinel n })

unfoldable pub both : Option SpendToken → Option (List SpendToken) → Option (List SpendToken)
both none ts = none
both (some t) none = none
both (some t) (some ts) = some (t ∷ ts)

unfoldable pub single_class : Option Text → Option SpendToken → Option TypedDataClass
single_class none t = none
single_class (some s) none = none
single_class (some s) (some t) = some (single s t)

unfoldable pub batch_class : Option Text → Option (List SpendToken) → Option TypedDataClass
batch_class none ts = none
batch_class (some s) none = none
batch_class (some s) (some ts) = some (batch s ts)
