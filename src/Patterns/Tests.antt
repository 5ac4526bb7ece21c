-- ===== src/Patterns/Tests.antt =====
-- Patterns on small texts.
use gov_jobs_backend.Base.{◌≡◌, refl, [], ◌∷◌, ◌++◌, codes, ◌==◌, not, true}
use gov_jobs_backend.Patterns.{
  same_unit, many, fewest, edge, either, begins, ends, again, literal, literal_i, replace_matches,
  group, match_all, pieces, find_match, match_at, greedy, lazily, first_word, after_word,
}

script :
    replace_matches
      (literal_i (codes "<")
        ++ (begins 1
              ∷ either same_unit (codes "script" ∷ codes "style" ∷ [])
              ∷ ends 1
              ∷ edge
              ∷ many (λ c. not (c == b'>'))
              ∷ literal (codes ">")
            ++ (fewest (λ c. true) ∷ literal (codes "</")
                ++ (again same_unit 1 ∷ literal (codes ">")))))
      (λ p. codes "#")
      (codes "ab<script x>..</style>..</SCRIPT>c<style>q</style>")
    ≡ codes "ab#c#"
unfolding replace_matches match_all pieces find_match match_at greedy lazily first_word after_word
    group literal literal_i
script = refl
