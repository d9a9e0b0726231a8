-- ===== src/Server/Environment.antt =====
-- The environment that a handler reads.
use Prim.Native.String.{[], ◌∷◌}
use goexpose.Common.{
  All, eq_refl, ◌++◌, ◌∙◌, ◌==◌, false, List, [], String, some, refl, ◌<>◌, ◌∷◌, ◌≡◌,
}
use goexpose.Dict.{Dict, lookup, lookup-insert}
use goexpose.Server.{add_entries, add_entry, get_env}
use goexpose.Text.{split_two, trim_space}
use goexpose.Text.Split.{Lacks, split_two-append}

add_entries-append :
    (xs ys : List String) (result : Dict String)
    → add_entries (xs ++ ys) result ≡ add_entries ys (add_entries xs result)
unfolding add_entries
add_entries-append [] ys result = refl
add_entries-append (x ∷ xs) ys result =
    add_entries-append xs ys (add_entry (split_two "=" x) result)

-- The line does not set `key`.
abbrev pub Spares : String → String → Type 0
Spares key line = (a b : String) → split_two "=" line ≡ a ∷ b ∷ [] → (trim_space a == key) ≡ false

lookup-add_entry :
    (key : String) (parts : List String) (result : Dict String)
    → ((a b : String) → parts ≡ a ∷ b ∷ [] → (trim_space a == key) ≡ false)
    → lookup key (add_entry parts result) ≡ lookup key result
lookup-add_entry key [] result h = refl
lookup-add_entry key (a ∷ []) result h = refl
lookup-add_entry key (a ∷ b ∷ []) result h = rw (lookup-insert, h a b refl) refl
lookup-add_entry key (a ∷ b ∷ c ∷ rest) result h = refl

lookup-add_entries :
    (key : String) (lines : List String) (result : Dict String)
    → All (Spares key) lines
    → lookup key (add_entries lines result) ≡ lookup key result
unfolding add_entries
lookup-add_entries key [] result h = refl
lookup-add_entries key (line ∷ lines) result h =
    lookup-add_entries key lines (add_entry (split_two "=" line) result) h.1
    ∙ lookup-add_entry key (split_two "=" line) result h.0

-- The value of an environment variable is the text after the first `=` of the last line that sets
-- it, and both its name and its value are trimmed.
pub lookup-get_env :
    (before after : List String) (name value : String)
    → Lacks "=" name
    → All (Spares (trim_space name)) after
    → lookup (trim_space name) (get_env (before ++ (name <> ("=" ∷ value)) ∷ after))
      ≡ some (trim_space value)
unfolding get_env add_entries
lookup-get_env before after name value lacks spares =
    rw
      (
        add_entries-append,
        lookup-add_entries (trim_space name) after
            (add_entry (split_two "=" (name <> ("=" ∷ value))) (add_entries before [])) spares,
        split_two-append "=" name value lacks,
        lookup-insert,
        eq_refl (trim_space name),
      )
      refl
