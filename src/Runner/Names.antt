-- ===== src/Runner/Names.antt =====
-- The names that a run gives: `_normalize_name`, `_create_order_context`, `_create_order_contexts`
-- and `OrderContext`.
pub mod Decimals
pub mod Normal
pub mod Slug
pub mod Unique
use delayed_order_sms_flink.Base.{
  ℕ, zero, suc, ◌+◌, ◌-◌, ◌*◌, ◌/◌, ◌%◌, ◌==◌, ltb, leb, if◌then◌else◌, Bool, true, false, ◌&&◌,
  ◌||◌, List, [], ◌∷◌, ◌++◌, map, Text, codes, remove_suffix, length, replicate, ℤ, pos, negsuc,
}
use mathlib.Core.List.{reverse}
use delayed_order_sms_flink.Json.Dumps.{show}
use delayed_order_sms_flink.Template.{Context}

-- `[a-zA-Z0-9]`
abbrev pub is_alphanumeric : ℕ → Bool
is_alphanumeric c =
    (leb b'a' c && leb c b'z') || (leb b'A' c && leb c b'Z') || (leb b'0' c && leb c b'9')

-- `re.sub(r"[^a-zA-Z0-9]+", "-", value)`. The flag is set behind a character that was replaced.
unfoldable pub dash_runs : Bool → Text → Text
dash_runs inside [] = []
dash_runs inside (c ∷ s) =
    let kept = c ∷ dash_runs false s in
    let more = dash_runs true s in
    if is_alphanumeric c then kept else if inside then more else b'-' ∷ more

unfoldable pub strip_front : Text → Text
strip_front [] = []
strip_front (c ∷ s) = let rest = strip_front s in if c == b'-' then rest else c ∷ s

-- `value.strip("-")`
unfoldable pub strip_dashes : Text → Text
strip_dashes s = reverse (strip_front (reverse (strip_front s)))

-- `value.lower()` at a text of letters, digits and dashes
abbrev pub to_lower : ℕ → ℕ
to_lower c = if leb b'A' c && leb c b'Z' then c + 32 else c

unfoldable pub normalize_name : Text → Text
normalize_name value =
    map to_lower (strip_dashes (dash_runs false (remove_suffix (codes ".json") value)))

-- `f"{n:0wd}"`
unfoldable pub zero_filled : ℕ → ℕ → Text
zero_filled w n = let digits = show n in replicate (w - length digits) b'0' ++ digits

pub record OrderContext : Type 0 where
  pub order_index : ℕ
  pub order_id : Text
  pub customer_id : Text
  pub store_id : Text
  pub base_time : ℕ

unfoldable pub as_template_context : OrderContext → Context
as_template_context c =
    (codes "orderId", c.order_id)
    ∷ (codes "customerId", c.customer_id)
    ∷ (codes "storeId", c.store_id)
    ∷ []

-- The indices are positive; `now` is what `utc_now` returns.
unfoldable pub create_order_context : Text → ℕ → Text → ℕ → OrderContext
create_order_context prefix order_index scenario_name now = record {
  order_index = order_index;
  order_id =
      prefix ++ (b'-' ∷ (normalize_name scenario_name ++ (b'-' ∷ zero_filled 4 order_index)));
  customer_id = codes "cus-" ++ zero_filled 4 order_index;
  store_id = codes "store-" ++ zero_filled 3 ((order_index - 1) % 10 + 1);
  base_time = now;
}

-- `range(1, orders_count + 1)`: `n` indices, from `i` on
unfoldable pub contexts_from : Text → Text → (ℕ → ℕ) → ℕ → ℕ → List OrderContext
contexts_from prefix scenario_name clock zero i = []
contexts_from prefix scenario_name clock (suc n) i =
    create_order_context prefix i scenario_name (clock i)
    ∷ contexts_from prefix scenario_name clock n (i + 1)

-- `clock i` is the time at which the context with the index `i` is made. A negative count is an
-- empty range.
unfoldable pub create_order_contexts : Text → Text → ℤ → (ℕ → ℕ) → List OrderContext
create_order_contexts prefix scenario_name (pos n) clock =
    contexts_from prefix scenario_name clock n 1
create_order_contexts prefix scenario_name (negsuc n) clock = []
