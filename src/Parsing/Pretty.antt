-- ===== src/Parsing/Pretty.antt =====
-- crates/id_effect_parse/src/pretty.rs: pretty documents. A text is the list of its characters'
-- codes; `str::len` is in bytes, so the codes are those of bytes.
use effect_rs.Prelude.{
  ℕ, zero, suc, ◌+◌, ◌%◌, ◌^◌, ◌-◌, ◌||◌, List, [], ◌∷◌, ◌++◌, any, ltb, ◌==◌, if◌then◌else◌,
  length,
}
use effect_rs.Parsing.Literals.{Text}

pub data Doc : Type 0 where
  nil line break_ : Doc
  text : Text → Doc
  cat : Doc → Doc → Doc
  nest : ℕ → Doc → Doc
  group : Doc → Doc

pub data Mode : Type 0 where
  flat broken : Mode

-- `" ".repeat`
abbrev pub spaces : ℕ → Text
spaces zero = []
spaces (suc n) = 32 ∷ spaces n

-- What `render_impl` adds to the output.
unfoldable pub render_impl : Doc → ℕ → ℕ → Mode → Text
render_impl nil width indent mode = []
render_impl (text t) width indent mode = t
render_impl line width indent mode = 10 ∷ spaces indent
render_impl break_ width indent flat = 32 ∷ []
render_impl break_ width indent broken = 10 ∷ spaces indent
render_impl (cat left right) width indent mode =
    render_impl left width indent mode ++ render_impl right width indent mode
render_impl (nest n inner) width indent mode = render_impl inner width ((indent + n) % 2 ^ 64) mode
render_impl (group inner) width indent mode =
    let one_line = render_impl inner (2 ^ 64 - 1) indent flat in
    let lines = render_impl inner width indent broken in
    if any (λ c. c == 10) one_line || ltb width (length one_line) then lines else one_line

unfoldable pub render : Doc → ℕ → Text
unfolding render_impl
render doc width = render_impl doc width 0 broken

fill_from : Doc → List Doc → Doc
fill_from doc [] = doc
fill_from doc (next ∷ rest) = fill_from (cat (cat doc break_) next) rest

unfoldable pub fill : List Doc → Doc
unfolding fill_from
fill [] = nil
fill (first ∷ rest) = group (fill_from first rest)

pretty_rest : Doc → List Doc → Doc
pretty_rest doc [] = doc
pretty_rest doc (item ∷ items) = pretty_rest (cat (cat doc (text (44 ∷ 32 ∷ []))) item) items

-- `pretty` of a slice, from the documents of its items.
unfoldable pub pretty_slice : List Doc → Doc
unfolding pretty_rest
pretty_slice [] = cat (text (91 ∷ [])) (text (93 ∷ []))
pretty_slice (item ∷ items) = cat (pretty_rest (cat (text (91 ∷ [])) item) items) (text (93 ∷ []))
