-- ===== src/AdEngine/Tests.antt =====
-- Concrete inputs for the theorems on file patterns.
use pbsgui.Base.{Text, [], arith, some, ◌∷◌, ◌≡◌}
use pbsgui.AdEngine.Matchspec.{star, any_char, glob_match}
use pbsgui.AdEngine.Matchspec.Reference.{glob_ref}
use pbsgui.AdEngine.Matchspec.Glob.{glob_match-glob_ref}

-- `*.l?g` and `a.log`
abbrev pattern_text : Text
pattern_text = star ∷ b'.' ∷ b'l' ∷ any_char ∷ b'g' ∷ []

abbrev file_name : Text
file_name = b'a' ∷ b'.' ∷ b'l' ∷ b'o' ∷ b'g' ∷ []

glob_match-glob_ref_example :
    glob_match pattern_text file_name ≡ some (glob_ref pattern_text file_name)
glob_match-glob_ref_example = glob_match-glob_ref pattern_text file_name (ground arith)
