-- ===== src/Json/Dumps.antt =====
-- `json.dumps(value, ensure_ascii=False, separators=(",", ":"))` and `text.encode("utf-8")`, as
-- simulator/src/order_simulator/kafka_producer.py calls them.
use delayed_order_sms_flink.Base.{
  ℕ, zero, suc, ◌+◌, ◌-◌, ◌/◌, ◌%◌, ◌==◌, ltb, leb, if◌then◌else◌, true, false, ◌&&◌, List, [], ◌∷◌,
  ◌++◌, Text, codes, ℤ, pos, negsuc, Result, ok, err, ◌>>=◌, value_error,
}
use delayed_order_sms_flink.Json.{
  Json, Items, Fields, null, bool, int, float, str, arr, obj, nil, cons, end, field,
}

-- The decimal digits of a number, the fuel being one more than any number of digits.
unfoldable pub show_fuel : ℕ → ℕ → Text
show_fuel zero n = []
show_fuel (suc f) n =
    let front = show_fuel f (n / 10) in
    if ltb n 10 then (b'0' + n) ∷ [] else front ++ (b'0' + n % 10) ∷ []

-- `str(n)`
unfoldable pub show : ℕ → Text
show n = show_fuel (n + 1) n

unfoldable pub show_int : ℤ → Text
show_int (pos n) = show n
show_int (negsuc n) = b'-' ∷ show (suc n)

hex_digit : ℕ → ℕ
hex_digit d = if ltb d 10 then b'0' + d else b'a' + (d - 10)

-- A character of a string: quotes, backslashes and control characters are escaped.
unfoldable pub escape : ℕ → Text
unfolding hex_digit
escape c =
    if c == b'"'
    then codes "\\\""
    else if c == 92
    then codes "\\\\"
    else if c == 10
    then codes "\\n"
    else if c == 13
    then codes "\\r"
    else if c == 9
    then codes "\\t"
    else if c == 12
    then codes "\\f"
    else if c == 8
    then codes "\\b"
    else if ltb c 32
    then codes "\\u00" ++ (hex_digit (c / 16) ∷ hex_digit (c % 16) ∷ [])
    else c ∷ []

unfoldable pub escaped : Text → Text
escaped [] = []
escaped (c ∷ s) = escape c ++ escaped s

unfoldable pub quoted : Text → Text
quoted s = b'"' ∷ (escaped s ++ b'"' ∷ [])

module _ {F : Type 0} (repr : F → Text) where
  unfoldable mutual
    pub dumps : Json F → Text
    dumps null = codes "null"
    dumps (bool true) = codes "true"
    dumps (bool false) = codes "false"
    dumps (int n) = show_int n
    dumps (float x) = repr x
    dumps (str s) = quoted s
    dumps (arr nil) = codes "[]"
    dumps (arr (cons x xs)) = b'[' ∷ (dumps x ++ (dumps_items xs ++ codes "]"))
    dumps (obj end) = codes "{}"
    dumps (obj (field k v fs)) =
        b'{' ∷ (quoted k ++ (b':' ∷ (dumps v ++ (dumps_fields fs ++ codes "}"))))

    -- The items behind the first, each with the comma in front.
    pub dumps_items : Items F → Text
    dumps_items nil = []
    dumps_items (cons x xs) = b',' ∷ (dumps x ++ dumps_items xs)

    pub dumps_fields : Fields F → Text
    dumps_fields end = []
    dumps_fields (field k v fs) = b',' ∷ (quoted k ++ (b':' ∷ (dumps v ++ dumps_fields fs)))

-- The bytes of a character. A surrogate has none (`UnicodeEncodeError`, a `ValueError`).
unfoldable pub encode_char : ℕ → Result (List ℕ)
encode_char c =
    if ltb c 0x80
    then ok (c ∷ [])
    else if ltb c 0x800
    then ok ((0xc0 + c / 64) ∷ (0x80 + c % 64) ∷ [])
    else if leb 0xd800 c && leb c 0xdfff
    then err value_error
    else if ltb c 0x10000
    then ok ((0xe0 + c / 4096) ∷ (0x80 + c / 64 % 64) ∷ (0x80 + c % 64) ∷ [])
    else ok
        ((0xf0 + c / 262144) ∷ (0x80 + c / 4096 % 64) ∷ (0x80 + c / 64 % 64) ∷ (0x80 + c % 64) ∷ [])

unfoldable pub encode : Text → Result (List ℕ)
encode [] = ok []
encode (c ∷ s) = do bs ← encode_char c; rest ← encode s; ok (bs ++ rest)
