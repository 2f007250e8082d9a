-- ===== src/Linearizer/Linearized.antt =====
-- pgf_lzr_linearize against the values of the trees.
use libpgf.Prelude.{
  ℕ, zero, suc, ◌≡◌, refl, sym, ◌∙◌, ap, arith, ◌<◌, ltb, lt→ltb, le→ltb, ltb→lt, ltb→le,
  Bool-cases, inl, inr, some, List, [], ◌∷◌, ◌++◌, get_or, get_elem?, length, All, All-get_elem?,
  abort, ◌≤◌, map, Run, ok, ◌>>=◌, if◌then◌else◌,
}
use libpgf.Grammar.{Symbol, cat, lit, var, ks, kp}
use libpgf.Parser.Trees.{deref}
use libpgf.Linearizer.{CncTree, CncTrees, app}
use libpgf.Linearizer.Presenter.{
  Presenter, n_trees, n_ctnts, linearize_symbols, linearize, linearize_arg, on_tokens, on_apply,
  on_literal,
}
use libpgf.Linearizer.Values.{
  Event, tokens, begin, constant, Value, sequence_value, value, values, sizes, IsConstituent,
  IsSymbol, IsTree, literal, application, AreTrees, nil, cons,
}

module _ {S : Type 0} (prtr : Presenter S) where
  -- What a presenter makes of what it is told.
  unfoldable pub told : List Event → S → S
  told [] s = s
  told (tokens toks ∷ events) s = told events (on_tokens prtr toks s)
  told (begin c n ∷ events) s = told events (on_apply prtr c n s)
  told (constant l ∷ events) s = told events (on_literal prtr l s)

  told-append : (xs ys : List Event) (s : S) → told (xs ++ ys) s ≡ told ys (told xs s)
  unfolding told
  told-append [] ys s = refl
  told-append (tokens toks ∷ xs) ys s = told-append xs ys _
  told-append (begin c n ∷ xs) ys s = told-append xs ys _
  told-append (constant l ∷ xs) ys s = told-append xs ys _

  -- A symbol's part told, and then the others'.
  next-told :
      (events more : List Event) (m : Run S) (f : S → Run S) (s : S)
      → m ≡ ok (told events s)
      → f (told events s) ≡ ok (told more (told events s))
      → (m >>= f) ≡ ok (told (events ++ more) s)
  next-told events more m f s e h =
      ap (λ x. x >>= f) e ∙ h ∙ ap ok (sym (told-append events more s))

  symbols-told :
      (arg : ℕ → ℕ → S → Run S) (vals : List Value) (ns : List ℕ) (syms : List Symbol) (s : S)
      → ((d r : ℕ)
          → IsConstituent ns d r
          → (s' : S) → arg d r s' ≡ ok (told (get_or (get_or vals d []) r []) s'))
      → All (IsSymbol ns) syms
      → linearize_symbols prtr arg syms s ≡ ok (told (sequence_value vals syms) s)
  unfolding linearize_symbols sequence_value told
  symbols-told arg vals ns [] s h all = refl
  symbols-told arg vals ns (ks toks ∷ syms) s h all = symbols-told arg vals ns syms _ h all.1
  symbols-told arg vals ns (kp toks alts ∷ syms) s h all = symbols-told arg vals ns syms _ h all.1
  symbols-told arg vals ns (cat d r ∷ syms) s h all =
      next-told (get_or (get_or vals d []) r []) (sequence_value vals syms) (arg d r s) _ s
        (h d r all.0 s) (symbols-told arg vals ns syms _ h all.1)
  symbols-told arg vals ns (var d r ∷ syms) s h all =
      next-told (get_or (get_or vals d []) r []) (sequence_value vals syms) (arg d r s) _ s
        (h d r all.0 s) (symbols-told arg vals ns syms _ h all.1)
  symbols-told arg vals ns (lit d r ∷ syms) s h all =
      next-told (get_or (get_or vals d []) r []) (sequence_value vals syms) (arg d r s) _ s
        (h d r all.0 s) (symbols-told arg vals ns syms _ h all.1)

  get_or-map :
      {A B : Type 0} (f : A → B) (xs : List A) (i : ℕ) (x : A) (z : B)
      → get_elem? xs i ≡ some x
      → get_or (map f xs) i z ≡ f x
  get_or-map f [] i x z h = cc
  get_or-map f (y ∷ xs) zero x z h = cc
  get_or-map f (y ∷ xs) (suc i) x z h = get_or-map f xs i x z h

  mutual
    unfolding linearize value sizes n_ctnts told

    pub tree-told :
        {t : CncTree}
        → IsTree t
        → (i : ℕ) → i < n_ctnts t
        → (s : S) → linearize prtr t i s ≡ ok (told (get_or (value t) i []) s)
    tree-told (literal l) zero lt s = refl
    tree-told (literal l) (suc i) lt s = absurd (omega arith)
    tree-told (application {fun = fun} {args = args} all trees) i lt s =
        let (syms, here, valid) = All-get_elem? (All (IsSymbol (sizes args))) fun.lins i all lt in
        let each : List Symbol → List Event =
          λ l. begin fun.fun (n_trees args) ∷ sequence_value (values args) l in
        rw (lt→ltb i (length fun.lins) lt, get_or-map each fun.lins i syms [] here)
          (rw (here, deref)
            (symbols-told (linearize_arg prtr args) (values args) (sizes args) syms
              (on_apply prtr fun.fun (n_trees args) s) (args-told trees) valid))

    args-told :
        {ts : CncTrees}
        → AreTrees ts
        → (d r : ℕ) → IsConstituent (sizes ts) d r
        → (s : S)
        → linearize_arg prtr ts d r s ≡ ok (told (get_or (get_or (values ts) d []) r []) s)
    args-told nil d r (n, here, lt) s = cc
    args-told (cons {t = x} t ts) zero r (n, here, lt) s =
        let e : n_ctnts x ≡ n = cc in tree-told t r (omega arith) s
    args-told (cons t ts) (suc d) r c s = args-told ts d r c s

  beyond-abort : (t : CncTree) (i : ℕ) (s : S) → n_ctnts t ≤ i → linearize prtr t i s ≡ abort
  unfolding linearize n_ctnts
  beyond-abort (CncTree.lit l) zero s h = absurd (omega arith)
  beyond-abort (CncTree.lit l) (suc i) s h = ground arith
  beyond-abort (app fun args) i s h = rw (le→ltb i (length fun.lins) h) refl

  -- For a tree whose symbols name constituents that there are, pgf_lzr_linearize at a constituent
  -- of the tree meets none of its checks, and tells the presenter the constituent's value in the
  -- grammar; at any other index it aborts.
  pub linearize-told :
      (t : CncTree) (i : ℕ) (s : S)
      → IsTree t
      → linearize prtr t i s
        ≡ (if ltb i (n_ctnts t) then ok (told (get_or (value t) i []) s) else abort)
  linearize-told t i s good = elim (Bool-cases (ltb i (n_ctnts t))) [
    | inl less ↦ rw less (tree-told good i (ltb→lt i (n_ctnts t) less) s)
    | inr more ↦ rw more (beyond-abort t i s (ltb→le i (n_ctnts t) more))
  ]
