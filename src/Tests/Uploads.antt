-- ===== src/Tests/Uploads.antt =====
-- A run of the theorem on uploaded files.
use editrig_go.Base.{◌≡◌, refl, List, [], ◌∷◌, if◌then◌else◌, mem_text}
use editrig_go.Map.{Map, lookup, insert}
use editrig_go.Json.{Upload, upload, str, or_nil}
use editrig_go.Validate.Media.{media_field_kind, raw_kind, entry_kind}
use editrig_go.Handler.Write.{inject, inject_kind}
use editrig_go.Handler.Injected.{IsAccepted, inject-IsAccepted}
use editrig_go.Fixtures.{item_ui}

abbrev picture : Upload
picture = record { filename = "a.png"; mime = "image/png"; content = "aaaa" }

abbrev pictures : Map (List Upload)
pictures = ("photo", picture ∷ []) ∷ []

inject-IsAccepted_example :
    if mem_text "photo" ("photo" ∷ [])
    then IsAccepted
        (media_field_kind item_ui "photo")
        (or_nil (lookup "photo" pictures))
        (lookup "photo" (("title", str "lamp") ∷ []))
        (lookup "photo" (("title", str "lamp") ∷ ("photo", upload picture) ∷ []))
    else (lookup "photo" (("title", str "lamp") ∷ ("photo", upload picture) ∷ [])
        ≡ lookup "photo" (("title", str "lamp") ∷ []))
unfolding inject inject_kind media_field_kind raw_kind entry_kind lookup insert
inject-IsAccepted_example =
    inject-IsAccepted item_ui pictures ("photo" ∷ [])
      (record { payload = ("title", str "lamp") ∷ []; field_errors = [] })
      (record {
        payload = ("title", str "lamp") ∷ ("photo", upload picture) ∷ [];
        field_errors = [];
      })
      "photo" (refl, tt) refl refl
