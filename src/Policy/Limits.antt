-- ===== src/Policy/Limits.antt =====
-- The limits in force for a request: the default block, overridden field by field on a network
-- (internal/policy/evaluate.go, `resolveLimits` and its helpers).
use daxie.Prelude.{
  ℕ, Bool, true, false, ◌||◌, Option, none, some, List, [], ◌∷◌, ◌++◌, if◌then◌else◌, get_or,
  is_some, ltb,
}
use daxie.Prelude.Int.{ℤ, pos, negsuc}
use daxie.Prelude.Text.{Text, codes, text_eq, equal_fold}
use daxie.Decimal.{set_string}
use daxie.Policy.Types.{Policy, Limits, NetworkRule}

-- The mark of an explicit JSON null: "no limit on this network".
abbrev pub null_sentinel : Text
null_sentinel = 0 ∷ (codes "null" ++ 0 ∷ [])

unfoldable pub is_null : Option Text → Bool
is_null none = false
is_null (some s) = text_eq s null_sentinel

unfoldable pub parse_limit : Option Text → Option ℤ
unfolding is_null
parse_limit none = none
parse_limit (some s) = if is_null (some s) then none else set_string s

unfoldable pub override_limit : Option ℤ → Option Text → Option ℤ
unfolding is_null
override_limit current none = current
override_limit current (some s) =
    if is_null (some s) then none else elim (set_string s) [ some v ↦ some v | none ↦ current ]

pub record ResolvedLimits : Type 0 where
  pub max_tx : Option ℤ
  pub max_day : Option ℤ
  pub max_gas_price : Option ℤ
  pub allowlist_enabled : Bool
  pub include_self : Bool
  pub any_set : Bool
  pub typed_unknown : Text

-- The default block; `any_set` is put in at the end.
default_limits : Policy → ResolvedLimits
unfolding parse_limit
default_limits p = record {
  max_tx = parse_limit p.rules.default.max_tx_wei;
  max_day = parse_limit p.rules.default.max_day_wei;
  max_gas_price = parse_limit p.rules.default.max_gas_price_wei;
  allowlist_enabled = get_or p.rules.default.allowlist_enabled false;
  include_self = get_or p.rules.default.include_self false;
  any_set = false;
  typed_unknown = p.typed_data.unknown;
}

apply_override : ResolvedLimits → Limits → ResolvedLimits
unfolding override_limit
apply_override out n = record {
  max_tx = override_limit out.max_tx n.max_tx_wei;
  max_day = override_limit out.max_day n.max_day_wei;
  max_gas_price = override_limit out.max_gas_price n.max_gas_price_wei;
  allowlist_enabled = get_or n.allowlist_enabled out.allowlist_enabled;
  include_self = get_or n.include_self out.include_self;
  any_set = out.any_set;
  typed_unknown = get_or n.typed_data_unknown out.typed_unknown;
}

-- The loop over the network rules: the first that matches is applied, and the loop stops.
override_first : ResolvedLimits → List NetworkRule → Text → ResolvedLimits
unfolding apply_override
override_first out [] network = out
override_first out (n ∷ ns) network =
    if equal_fold n.network network
    then apply_override out n.limits
    else override_first out ns network

mark_any_set : ResolvedLimits → ResolvedLimits
mark_any_set out = record out {
  any_set = is_some out.max_tx || is_some out.max_day || is_some out.max_gas_price;
}

unfoldable pub resolve_limits : Policy → Text → ResolvedLimits
unfolding default_limits override_first mark_any_set
resolve_limits p network = mark_any_set (override_first (default_limits p) p.rules.networks network)

-- Whether an amount is over a limit; a limit read from text may be negative.
unfoldable pub exceeds : ℕ → ℤ → Bool
exceeds n (pos l) = ltb l n
exceeds n (negsuc l) = true
