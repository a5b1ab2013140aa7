-- ===== src/Tests/Deletions.antt =====
-- A run of the theorem on a deletion.
use editrig_go.Base.{◌≡◌, ◌⊎◌, refl, sym, ap, none, some, [], ◌∷◌, String}
use editrig_go.Entity.{Entity, Hook, LoadResult}
use editrig_go.Registry.{get}
use editrig_go.Map.{lookup}
use editrig_go.Http.{nothing, pure, continue, ◌>>=◌, call, reply}
use editrig_go.Http.Rules.{IsReading}
use editrig_go.Handler.{Handler, entity_of, run_load, load_or_500, load_or_404, serve_delete}
use editrig_go.Handler.Deletes.{HasRun, HasRefused, serve_delete-IsDeletion}
use editrig_go.Fixtures.{Shop, item, handler, form_request, world}

abbrev removable : Entity Shop
removable = record item { delete = some (λ id s. (none, none)) }

abbrev delete_handler : Handler Shop
delete_handler = record handler { reg = ("item", removable) ∷ [] }

removable-reads : (l : String → Hook Shop LoadResult) → removable.load ≡ some l → IsReading (l "1")
removable-reads l p s = ap (λ o. elim o [ none ↦ s | some k ↦ (k "1" s).1 ]) (sym p)

serve_delete-IsDeletion_example :
    HasRun removable "1" world.store
      (serve_delete delete_handler form_request "item" "1" world).1.store
      204
    ⊎ HasRefused world.store (serve_delete delete_handler form_request "item" "1" world).1.store 204
unfolding get lookup serve_delete entity_of load_or_404 load_or_500 run_load pure continue ◌>>=◌
    call reply
serve_delete-IsDeletion_example =
    serve_delete-IsDeletion delete_handler form_request removable "1" world "item"
      (record { status = 204; content = nothing }) refl removable-reads refl
