-- ===== src/Template.antt =====
-- simulator/src/order_simulator/template_renderer.py.
pub mod Segments
use delayed_order_sms_flink.Base.{List, [], ◌∷◌, ◌++◌, Text, codes, replace}
use delayed_order_sms_flink.Json.{
  Json, Items, Fields, null, bool, int, float, str, arr, obj, nil, cons, end, field,
}

-- A `dict` of texts, in insertion order.
abbrev pub Context : Type 0
Context = List (Text × Text)

-- `"{{" + key + "}}"`
abbrev pub marker : Text → Text
marker key = codes "{{" ++ (key ++ codes "}}")

-- Each entry's marker is replaced in the text that the entries before it left.
unfoldable pub render_template_value : Text → Context → Text
render_template_value rendered [] = rendered
render_template_value rendered ((key, replacement) ∷ context) =
    render_template_value (replace (marker key) replacement rendered) context

module _ {F : Type 0} (context : Context) where
  unfoldable mutual
    pub render_template : Json F → Json F
    render_template null = null
    render_template (bool b) = bool b
    render_template (int n) = int n
    render_template (float x) = float x
    render_template (str s) = str (render_template_value s context)
    render_template (arr xs) = arr (render_items xs)
    render_template (obj fs) = obj (render_fields fs)

    pub render_items : Items F → Items F
    render_items nil = nil
    render_items (cons x xs) = cons (render_template x) (render_items xs)

    pub render_fields : Fields F → Fields F
    render_fields end = end
    render_fields (field k v fs) = field k (render_template v) (render_fields fs)
