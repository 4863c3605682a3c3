-- ===== src/Urlify/Downcode.antt =====
-- `Downcoder` and `downcode`: the tables merged into one object, and the replacement of every
-- character that is a key of it.
pub mod Laws
use Prim.Native.String.{String}
use agentsecrets_server.Prelude.{ℕ, List, [], ◌∷◌, ◌++◌, Option, none, some, if◌then◌else◌, ◌==◌}
use agentsecrets_server.Text.{codes}
use agentsecrets_server.Urlify.Maps.{
  latin_map, latin_symbols_map, greek_map, turkish_map, romanian_map, russian_map, ukrainian_map,
  czech_map, slovak_map, polish_map, latvian_map, arabic_map, lithuanian_map, serbian_map,
  azerbaijani_map, georgian_map,
}

abbrev pub Table : Type 0
Table = List (ℕ × String)

abbrev pub all_downcode_maps : List Table
all_downcode_maps =
    latin_map ∷ latin_symbols_map ∷ greek_map ∷ turkish_map ∷ romanian_map ∷ russian_map
    ∷ ukrainian_map ∷ czech_map ∷ slovak_map ∷ polish_map ∷ latvian_map ∷ arabic_map
    ∷ lithuanian_map ∷ serbian_map ∷ azerbaijani_map ∷ georgian_map ∷ []

-- A property of an object: the last assignment to a key is the one that is read.
pub get : ℕ → Table → Option String
get k [] = none
get k ((j, v) ∷ t) = if j == k then some v else get k t

pub put : ℕ → String → Table → Table
put k v [] = (k, v) ∷ []
put k v ((j, w) ∷ t) = if j == k then (k, v) ∷ t else (j, w) ∷ put k v t

pub object_assign : Table → Table → Table
object_assign target [] = target
object_assign target ((k, v) ∷ source) = object_assign (put k v target) source

pub merge : Table → List Table → Table
merge target [] = target
merge target (lookup ∷ rest) = merge (object_assign target lookup) rest

pub downcoder_map : Table
unfolding merge object_assign put
downcoder_map = merge [] all_downcode_maps

pub replacement : ℕ → Option String → List ℕ
replacement c none = c ∷ []
replacement c (some v) = codes v

pub replace_keys : Table → List ℕ → List ℕ
replace_keys m [] = []
replace_keys m (c ∷ slug) = replacement c (get c m) ++ replace_keys m slug

unfoldable pub downcode : List ℕ → List ℕ
unfolding replace_keys replacement downcoder_map get
downcode slug = replace_keys downcoder_map slug
