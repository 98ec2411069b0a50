-- ===== src/Json.antt =====
-- The values that `json.load` gives and `json.dumps` takes. `F` is Python's `float`.
pub mod Numbers
pub mod Dumps
pub mod Laws
use delayed_order_sms_flink.Base.{
  Text, text_eq, Bool, true, false, Option, none, some, if◌then◌else◌, ℤ, pos, negsuc, zero, suc,
  [], ◌∷◌,
}

mutual
  pub data Json (F : Type 0) : Type 0 where
    null : Json F
    bool : Bool → Json F
    int : ℤ → Json F
    float : F → Json F
    str : Text → Json F
    arr : Items F → Json F
    obj : Fields F → Json F

  pub data Items (F : Type 0) : Type 0 where
    nil : Items F
    cons : Json F → Items F → Items F

  -- The entries of a `dict`, in insertion order.
  pub data Fields (F : Type 0) : Type 0 where
    end : Fields F
    field : Text → Json F → Fields F → Fields F

module _ {F : Type 0} where
  -- `d.get(key)` and `key in d`
  unfoldable pub get : Text → Fields F → Option (Json F)
  get k end = none
  get k (field j v fs) = if text_eq j k then some v else get k fs

  -- `d[key] = v`: the entry keeps its place if the key is there, and is the last one if not.
  unfoldable pub put : Text → Json F → Fields F → Fields F
  put k w end = field k w end
  put k w (field j v fs) = if text_eq j k then field j w fs else field j v (put k w fs)

  -- `bool(v)`: what is empty or zero is false.
  unfoldable pub is_true : (F → Bool) → Json F → Bool
  is_true f null = false
  is_true f (bool b) = b
  is_true f (int (pos zero)) = false
  is_true f (int _) = true
  is_true f (float x) = f x
  is_true f (str []) = false
  is_true f (str (_ ∷ _)) = true
  is_true f (arr nil) = false
  is_true f (arr (cons _ _)) = true
  is_true f (obj end) = false
  is_true f (obj (field _ _ _)) = true

  abbrev pub get_or : Text → Json F → Fields F → Json F
  get_or k d fs = elim (get k fs) [ none ↦ d | some v ↦ v ]
