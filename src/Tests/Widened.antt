-- ===== src/Tests/Widened.antt =====
-- A run of the theorem on the fuel of a widened schema: a definition that refers to itself.
use editrig_go.Base.{◌≡◌, [], ◌∷◌}
use editrig_go.Json.{Value, obj, arr, str, of_members, of_items}
use editrig_go.Validate.Widen.{exhausted, upload_array_schema}
use editrig_go.Validate.Widen.Fuel.{widen_fuel-upload_array_schema}
use editrig_go.Validate.Write.{widen_fuel}

abbrev image_ref : Value
image_ref = obj (of_members (("$ref", str "#/$defs/image") ∷ []))

-- `{"$defs": {"image": {"allOf": [{"$ref": "#/$defs/image"}]}}}`.
abbrev cyclic_root : Value
cyclic_root = obj (
    of_members (
      (
        "$defs",
        obj (
            of_members
              (("image", obj (of_members (("allOf", arr (of_items (image_ref ∷ []))) ∷ []))) ∷ [])),
      )
      ∷ []))

widen_fuel-upload_array_schema_example : ¬ (
    upload_array_schema cyclic_root
      (str "marker" ∷ [])
      (widen_fuel cyclic_root image_ref)
      []
      image_ref
    ≡ exhausted)
widen_fuel-upload_array_schema_example =
    widen_fuel-upload_array_schema cyclic_root image_ref (str "marker" ∷ [])
