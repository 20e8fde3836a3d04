-- ===== src/Tests/TestFile.antt =====
-- Witnesses for a3/fs/file.c.
use comp310_assignments.Prelude.{◌≡◌, refl, false, List, [], ◌∷◌, none, some, Text, streq}
use comp310_assignments.Fs.File.{FileTableEntry, get_file_by_fname, add_to_file_table, remove_entry}
use comp310_assignments.Fs.File.Table.{UniqueNames, file_or, add_to_file_table-UniqueNames}

abbrev one_name : List FileTableEntry
one_name = record { fname = 97 ∷ []; file = 5 } ∷ []

one_name-UniqueNames : UniqueNames one_name
unfolding get_file_by_fname
one_name-UniqueNames = (refl, tt)

add_to_file_table_example :
    UniqueNames (add_to_file_table 6 (98 ∷ []) one_name)
    × (get_file_by_fname (98 ∷ []) (add_to_file_table 6 (98 ∷ []) one_name)
        ≡ some (file_or (get_file_by_fname (98 ∷ []) one_name) 6))
    × ((other : Text)
        → streq (98 ∷ []) other ≡ false
        → get_file_by_fname other (add_to_file_table 6 (98 ∷ []) one_name)
          ≡ get_file_by_fname other one_name)
    × (get_file_by_fname (98 ∷ []) (remove_entry (98 ∷ []) (add_to_file_table 6 (98 ∷ []) one_name))
        ≡ none)
add_to_file_table_example = add_to_file_table-UniqueNames 6 (98 ∷ []) one_name one_name-UniqueNames
