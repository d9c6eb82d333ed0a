-- ===== src/Tests/Naming.antt =====
-- A virtual name, and one that is refused.
use weaver.Prelude.{Bytes, codes, ◌≡◌, refl, ◌↔◌, List}
use weaver.Core.{validate_virtual_name, split, check_labels, invalid}
use weaver.Prelude.Results.{ok, err}
use weaver.Core.Names.{join, IsName}
use weaver.Core.Names

abbrev name : Bytes
name = codes "db-1.virtual"

name_accepted : validate_virtual_name name ≡ ok tt
unfolding validate_virtual_name split check_labels
name_accepted = refl

upper_case_refused : validate_virtual_name (codes "Db.virtual") ≡ err invalid
unfolding validate_virtual_name split check_labels
upper_case_refused = refl

validate_virtual_name_iff_example :
    (validate_virtual_name name ≡ ok tt)
    ↔ ((labels : List Bytes) × (name ≡ join labels) × IsName labels)
validate_virtual_name_iff_example = Names.validate_virtual_name_iff name
