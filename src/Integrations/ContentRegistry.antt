-- ===== src/Integrations/ContentRegistry.antt =====
-- The content types that are configured, and the address of each one's API:
-- src/integrations/content_registry.rs.
use likes_service.Common.{
  Bool, true, false, List, [], ◌∷◌, Text, Option, none, some, ltb, if◌then◌else◌, text_eq, nat_eqb,
}
use likes_service.Common.Maps as Maps
use likes_service.Common.Maps.{Map, insert}

pub record ContentApiDefinition : Type 0 where
  pub content_type : Text
  pub base_url : Text

pub record ContentTypeRegistry : Type 0 where
  pub definitions : Map Text ContentApiDefinition

collect_definitions :
    List ContentApiDefinition → Map Text ContentApiDefinition → Map Text ContentApiDefinition
collect_definitions [] m = m
collect_definitions (d ∷ ds) m = collect_definitions ds (insert m d.content_type d)

-- A content type that is given twice has its last definition.
unfoldable pub new : List ContentApiDefinition → ContentTypeRegistry
unfolding collect_definitions
new ds = record { definitions = collect_definitions ds [] }

unfoldable pub get : ContentTypeRegistry → Text → Option ContentApiDefinition
get registry content_type = Maps.get registry.definitions content_type

contained : Option ContentApiDefinition → Bool
contained none = false
contained (some d) = true

unfoldable pub contains : ContentTypeRegistry → Text → Bool
unfolding contained
contains registry content_type = contained (get registry content_type)

-- The order of `String`s: that of their code points, from the left.
unfoldable pub text_leb : Text → Text → Bool
text_leb [] t = true
text_leb (c ∷ s) [] = false
text_leb (c ∷ s) (d ∷ t) =
    let rest = text_leb s t in if ltb c d then true else if nat_eqb c d then rest else false

unfoldable pub insert_sorted :
    ContentApiDefinition → List ContentApiDefinition → List ContentApiDefinition
insert_sorted d [] = d ∷ []
insert_sorted d (e ∷ es) =
    let rest = insert_sorted d es in
    if text_leb d.content_type e.content_type then d ∷ e ∷ es else e ∷ rest

unfoldable pub sort : List ContentApiDefinition → List ContentApiDefinition
sort [] = []
sort (d ∷ ds) = insert_sorted d (sort ds)

unfoldable pub values : Map Text ContentApiDefinition → List ContentApiDefinition
values [] = []
values ((k, d) ∷ m) = d ∷ values m

unfoldable pub all : ContentTypeRegistry → List ContentApiDefinition
all registry = sort (values registry.definitions)
