-- ===== src/Urlify/Tests.antt =====
-- Runs of `URLify`, and the theorems at concrete texts.
use agentsecrets_server.Prelude.{ℕ, ◌≡◌, refl, Bool, false, none, some, arith}
use agentsecrets_server.Text.{codes, ascii_case}
use agentsecrets_server.Text.Trim.{drop_while, drop_end}
use agentsecrets_server.Urlify.{urlify}
use agentsecrets_server.Urlify.Hyphens.{collapse}
use agentsecrets_server.Urlify.Downcode.{downcode}
use agentsecrets_server.Urlify.Slug.{IsSlug, urlify-IsSlug}

abbrev no_letters : ℕ → Bool
no_letters c = false

downcode_test : downcode (codes "Ærøskøbing ©") ≡ codes "AEroskobing (c)"
unfolding downcode
downcode_test = refl

-- The Slovak table gives a small letter for this capital, and it comes after the Latin one.
slovak_capital : downcode (codes "Á") ≡ codes "a"
unfolding downcode
slovak_capital = refl

urlify_test :
    urlify ascii_case no_letters (codes " Petty  Théft - 2! ") (some 12) false ≡ codes "petty-theft"
unfolding urlify downcode collapse drop_while drop_end
urlify_test = refl

urlify-IsSlug_example : IsSlug (urlify ascii_case no_letters (codes "Petty Théft") none false) none
urlify-IsSlug_example = urlify-IsSlug ascii_case no_letters (codes "Petty Théft") none

petty_theft-IsSlug : IsSlug (codes "petty-theft") (some 20)
petty_theft-IsSlug = record {
  characters = ground arith;
  single = refl;
  ends = refl;
  within = omega arith;
}
