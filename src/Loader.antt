-- ===== src/Loader.antt =====
-- simulator/src/order_simulator/scenario_loader.py.
pub mod Laws
use delayed_order_sms_flink.Base.{
  Bool, true, false, Option, none, some, List, [], ◌∷◌, ◌++◌, Text, codes, text_eq, ends_with,
  remove_suffix, if◌then◌else◌, Result, ok, err, ◌>>=◌, file_not_found_error, key_error,
}
use delayed_order_sms_flink.Json.{Json}

-- The files of the directory: none where a name does not exist, or what opening the file and
-- `json.load` give.
abbrev pub Files : Type 0 → Type 0
Files F = Text → Option (Result (Json F))

-- A `dict` of the scenarios by their names.
abbrev pub Loaded : Type 0 → Type 0
Loaded F = List (Text × Json F)

unfoldable pub put_loaded : {F : Type 0} → Text → Json F → Loaded F → Loaded F
put_loaded k v [] = (k, v) ∷ []
put_loaded k v ((j, w) ∷ loaded) =
    if text_eq j k then (k, v) ∷ loaded else (j, w) ∷ put_loaded k v loaded

-- `loaded[name]`
unfoldable pub get_loaded : {F : Type 0} → Text → Loaded F → Result (Json F)
get_loaded k [] = err key_error
get_loaded k ((j, v) ∷ loaded) = if text_eq j k then ok v else get_loaded k loaded

module _ {F : Type 0} (files : Files F) where
  abbrev pub file_name : Text → Text
  file_name name =
      (if ends_with (codes ".json") name then remove_suffix (codes ".json") name else name)
      ++ codes ".json"

  unfoldable pub load : Text → Result (Json F)
  load name = elim (files (file_name name)) [ none ↦ err file_not_found_error | some r ↦ r ]

  -- The scenarios are loaded one after the other, behind those that are loaded.
  unfoldable pub load_into : Loaded F → List Text → Result (Loaded F)
  load_into loaded [] = ok loaded
  load_into loaded (name ∷ names) = do
    scenario ← load name
    load_into (put_loaded name scenario loaded) names

  unfoldable pub load_many : List Text → Result (Loaded F)
  load_many names = load_into [] names
