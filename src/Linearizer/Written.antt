-- ===== src/Linearizer/Written.antt =====
-- pgf_lzr_linearize_simple: what the simple presenter writes of a tree.
use libpgf.Prelude.{
  ℕ, ◌≡◌, sym, ◌∙◌, ap, ◌<◌, true, List, [], ◌∷◌, ◌++◌, get_or, append_assoc, append-nil, ok,
}
use libpgf.Grammar.{Token}
use libpgf.Linearizer.{CncTree}
use libpgf.Linearizer.Presenter.{
  n_ctnts, Writer, write_tokens, simple_symbol_tokens, simple_prtr, linearize_simple,
}
use libpgf.Linearizer.Values.{Event, tokens, begin, constant, value, IsTree}
use libpgf.Linearizer.Linearized.{told, tree-told}

-- A writer that does not fail, and the text that it has written.
pub record IsWriter {W : Type 0} (wtr : Writer W) (text : W → List ℕ) : Type 0 where
  pub stays_ok :
      (bytes : List ℕ) (w : W) → wtr.is_ok w ≡ true → wtr.is_ok (wtr.write bytes w) ≡ true
  pub appends :
      (bytes : List ℕ) (w : W) → wtr.is_ok w ≡ true → text (wtr.write bytes w) ≡ text w ++ bytes

-- The tokens of a constituent, each with a space behind it.
unfoldable pub spaced : List Token → List ℕ
spaced [] = []
spaced (tok ∷ toks) = tok ++ b' ' ∷ spaced toks

unfoldable pub spaced_events : List Event → List ℕ
unfolding spaced
spaced_events [] = []
spaced_events (tokens toks ∷ events) = spaced toks ++ spaced_events events
spaced_events (begin c n ∷ events) = spaced_events events
spaced_events (constant l ∷ events) = spaced_events events

module _ {W : Type 0} (wtr : Writer W) (text : W → List ℕ) (law : IsWriter wtr text) where
  abbrev Wrote : List ℕ → W → W → Type 0
  Wrote bytes w w' = (wtr.is_ok w' ≡ true) × (text w' ≡ text w ++ bytes)

  Wrote-append :
      (xs ys : List ℕ) (w w' w'' : W) → Wrote xs w w' → Wrote ys w' w'' → Wrote (xs ++ ys) w w''
  Wrote-append xs ys w w' w'' h k = (k.0, k.1 ∙ ap (λ l. l ++ ys) h.1 ∙ append_assoc (text w) xs ys)

  write-Wrote : (bytes : List ℕ) (w : W) → wtr.is_ok w ≡ true → Wrote bytes w (wtr.write bytes w)
  write-Wrote bytes w h = (law.stays_ok bytes w h, law.appends bytes w h)

  write_tokens-Wrote :
      (toks : List Token) (w : W)
      → wtr.is_ok w ≡ true
      → Wrote (spaced toks) w (write_tokens wtr toks w)
  unfolding write_tokens spaced
  write_tokens-Wrote [] w h = (h, sym (append-nil (text w)))
  write_tokens-Wrote (tok ∷ toks) w h =
      let one = write-Wrote tok w h in
      let two = write-Wrote (b' ' ∷ []) (wtr.write tok w) one.0 in
      Wrote-append tok (b' ' ∷ spaced toks) w (wtr.write tok w) _ one (
        Wrote-append (b' ' ∷ []) (spaced toks) (wtr.write tok w) _ _ two
          (write_tokens-Wrote toks _ two.0))

  told-Wrote :
      (events : List Event) (w : W)
      → wtr.is_ok w ≡ true
      → Wrote (spaced_events events) w (told (simple_prtr wtr) events w)
  unfolding told spaced_events simple_symbol_tokens simple_prtr
  told-Wrote [] w h = (h, sym (append-nil (text w)))
  told-Wrote (begin c n ∷ events) w h = told-Wrote events w h
  told-Wrote (constant l ∷ events) w h = told-Wrote events w h
  told-Wrote (tokens toks ∷ events) w h = rw h (
      let one = write_tokens-Wrote toks w h in
      Wrote-append (spaced toks) (spaced_events events) w _ _ one (told-Wrote events _ one.0))

  -- With a writer that appends what it is given and does not fail, pgf_lzr_linearize_simple at a
  -- constituent of a tree whose symbols name constituents that there are returns, and has written the tokens of the
  -- constituent's value, in order and each followed by one space.
  pub linearize_simple-spaced :
      (t : CncTree) (i : ℕ) (w : W)
      → IsTree t
      → i < n_ctnts t
      → wtr.is_ok w ≡ true
      → (w' : W) × (linearize_simple wtr t i w ≡ ok w')
        × (wtr.is_ok w' ≡ true)
        × (text w' ≡ text w ++ spaced_events (get_or (value t) i []))
  unfolding linearize_simple
  linearize_simple-spaced t i w good lt h =
      let events = get_or (value t) i [] in
      let (still, text_is) = told-Wrote events w h in
      (told (simple_prtr wtr) events w, tree-told (simple_prtr wtr) good i lt w, still, text_is)
