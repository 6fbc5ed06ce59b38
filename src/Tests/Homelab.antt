-- ===== src/Tests/Homelab.antt =====
-- A homelab file and lookups at concrete inputs.
use virtiz_ai.Common.{
  String, ◌≡◌, refl, false, none, some, List, [], ◌∷◌, All, if◌then◌else◌, ◌==◌, ◌||◌,
}
use virtiz_ai.Common.Sort.{sort, insert}
use virtiz_ai.Homelab.{Grammar, Fact}
use virtiz_ai.Homelab.Coalesce.{coalesced, connect, all_roots, find, union}
use virtiz_ai.Homelab.Canonical.{IsPartition, coalesced-IsPartition}
use virtiz_ai.Homelab.Collect.{collect, add_lines, add_paragraphs, add_fields, read_lines}
use virtiz_ai.Homelab.Safe.{IsSafe, collect-AllSafe}
use virtiz_ai.Homelab.Lookup.{Entity, Row, Tables, resolve_property, distinct}
use virtiz_ai.Homelab.Facts.{lookup, lookup_term, named, facts_of, found_of, all_found, nonempty}
use virtiz_ai.Homelab.Evidence.{IsAnswer, lookup-IsAnswer}

-- the lines of the example, matched one by one
abbrev grammar : Grammar
grammar = record {
  clean = λ s. s;
  strip = λ s. s;
  casefold = λ s. s;
  is_secret = λ s. s == "password";
  is_assignment = λ s. s == "token=1";
  is_fence = λ s. s == "```";
  is_markdown_heading = λ s. s == "## nas";
  is_list_item = λ s. s == "- os: debian" || s == "- password: x";
  is_rule = λ s. s == "---";
  heading = λ s. if s == "## nas" then some "nas" else none;
  fact = λ s.
      if s == "- os: debian"
      then some ("os", "debian")
      else if s == "- password: x"
      then some ("password", "x")
      else none;
  table_row = λ s. none;
  state = λ s. none;
  normalize = λ s. s;
}

abbrev lines : List String
lines = "## nas" ∷ "- os: debian" ∷ "- password: x" ∷ "some prose" ∷ []

one_record :
    (collect grammar lines).records
    ≡ record { heading = "nas"; name = "os"; value = "debian"; line = 2 } ∷ []
unfolding collect add_lines add_paragraphs add_fields read_lines
one_record = refl

collect-AllSafe_example : All (IsSafe grammar) (collect grammar lines).records
collect-AllSafe_example = collect-AllSafe grammar lines

abbrev nas : Entity
nas = record { id = "1"; canonical_name = "nas"; entity_type = "host"; status = "active" }

abbrev os_of_nas : Row
os_of_nas = record {
  entity_id = "1";
  property = "os";
  value = "debian";
  status = "verified";
  updated_at = "2026";
  source_name = "homelab.md";
  source_line = 2;
  source_digest = "d";
}

abbrev tables : Tables
tables = record {
  entities = nas ∷ [];
  aliases = record { alias = "NAS"; entity_id = "1" } ∷ [];
  facts = os_of_nas ∷ [];
  messages = [];
}

found_os : lookup grammar tables "nas" (some "os") none ≡ record {
  status = "found";
  query = "nas";
  property = some "os";
  property_matches = [];
  same_session = false;
  entities = record { entity = nas; facts = os_of_nas ∷ [] } ∷ [];
}
unfolding lookup lookup_term named facts_of found_of all_found resolve_property distinct sort insert
found_os = refl

lookup-IsAnswer_example :
    IsAnswer grammar tables
      (nonempty (some "os"))
      (lookup grammar tables "nas" (some "os") (some "s"))
lookup-IsAnswer_example = lookup-IsAnswer grammar tables "nas" (some "os") (some "s")

-- two sections of one machine and another one
abbrev machines : List Fact
machines =
    record { heading = "nas"; name = "ip"; value = "10.0.0.2"; line = 2 }
    ∷ record { heading = "files"; name = "address"; value = "10.0.0.2"; line = 5 }
    ∷ record { heading = "vpn"; name = "ip"; value = "10.0.0.3"; line = 8 }
    ∷ []

canonical_machines :
    coalesced grammar (λ n v. v ∷ []) machines
    ≡ some ("files" ∷ "vpn" ∷ [], ("files", "files") ∷ ("nas", "files") ∷ ("vpn", "vpn") ∷ [])
unfolding coalesced connect all_roots find union sort insert distinct
canonical_machines = refl

coalesced-IsPartition_example : IsPartition grammar (λ n v. v ∷ []) machines
coalesced-IsPartition_example = coalesced-IsPartition grammar (λ n v. v ∷ []) machines
