-- ===== src/Codec/Combine.antt =====
-- What a parser accepts: `Accepts p Q` says that whenever `p` answers `a` on a byte string, it has
-- taken a prefix `w` of it with `Q a w`, and stands behind that prefix. One rule for each reader.
use zephyr_chain.Base.{
  ◌≡◌, refl, sym, ◌∙◌, ap, Bool, true, false, [], ◌++◌, append-nil, append_assoc, Bytes, IsBytes,
  All-append_right, Result, ok, err, Error,
}
use zephyr_chain.Codec.Reader.{
  Reader, Parser, lift, run, continue, rethrow, ◌‼◌, ◌>>=◌, ◌>>◌, require_not,
}
use zephyr_chain.Codec.Reads.{at}

-- The parser took `w`, and `rest` is left.
pub record Took (pre s w rest : Bytes) (r : Reader) : Type 0 where
  pub split : s ≡ w ++ rest
  pub after : r ≡ at (pre ++ w) rest

pub record Accepts {A : Type 0} (p : Parser A) (Q : A → Bytes → Type 0) : Type 0 where
  pub apply :
      (pre s : Bytes) (a : A) (r : Reader)
      → IsBytes s
      → p (at pre s) ≡ (ok a, r)
      → (w : Bytes) × (rest : Bytes) × Took pre s w rest r × Q a w

-- The same for a parser that reads to the end of its input.
pub record AcceptsAll {A : Type 0} (p : Parser A) (Q : A → Bytes → Type 0) : Type 0 where
  pub apply : (pre s : Bytes) (a : A) → IsBytes s → (p (at pre s)).0 ≡ ok a → Q a s

Took-trans :
    {pre s w rest v rest' : Bytes} {r r' : Reader}
    → Took pre s w rest r
    → Took (pre ++ w) rest v rest' r'
    → Took pre s (w ++ v) rest' r'
Took-trans {pre} {s} {w} {rest} {v} {rest'} t t' = record {
  split = t.split ∙ ap (◌++◌ w) t'.split ∙ sym (append_assoc w v rest');
  after = t'.after ∙ ap (λ (z : Bytes). at z rest') (append_assoc pre w v);
}

module _ {A B : Type 0} (f : A → Parser B) where
  continue-inv :
      (x : Result A × Reader) (b : B) (r : Reader)
      → continue f x ≡ (ok b, r)
      → (a : A) × (r' : Reader) × (x ≡ (ok a, r')) × (f a r' ≡ (ok b, r))
  continue-inv (ok a, r') b r e = (a, r', refl, e)
  continue-inv (err _, r') b r e = absurd (cc (ap (λ (t : Result B × Reader). t.0) e))

  continue-inv_all :
      (x : Result A × Reader) (b : B)
      → (continue f x).0 ≡ ok b
      → (a : A) × (r' : Reader) × (x ≡ (ok a, r')) × ((f a r').0 ≡ ok b)
  continue-inv_all (ok a, r') b e = (a, r', refl, e)
  continue-inv_all (err _, r') b e = absurd (cc e)

-- A parser that is run where nothing is left.
pub record AcceptsNil {A : Type 0} (p : Parser A) (Q : A → Bytes → Type 0) : Type 0 where
  pub apply : (pre : Bytes) (a : A) → (p (at pre [])).0 ≡ ok a → Q a []

module _ {A B : Type 0} {p : Parser A} (f : A → Parser B) {P : A → Bytes → Type 0}
    {Q : B → Bytes → Type 0} where
  pub Accepts-bind :
      Accepts p P
      → ((a : A) (w : Bytes) → P a w → Accepts (f a) (λ b v. Q b (w ++ v)))
      → Accepts (p >>= f) Q
  unfolding ◌>>=◌
  Accepts-bind h k = record {
    apply = λ pre s b r bs e.
        let (a, r', e1, e2) = continue-inv f (p (at pre s)) b r e in
        let (w, rest, t, q) = h.apply pre s a r' bs e1 in
        let left : IsBytes rest = All-append_right _ w rest (rw t.split at bs) in
        let (v, rest', t', q') =
          (k a w q).apply (pre ++ w) rest b r left (ap (f a) (sym t.after) ∙ e2) in
        (w ++ v, rest', Took-trans t t', q');
  }

  pub AcceptsAll-bind :
      Accepts p P
      → ((a : A) (w : Bytes) → P a w → AcceptsAll (f a) (λ b v. Q b (w ++ v)))
      → AcceptsAll (p >>= f) Q
  unfolding ◌>>=◌
  AcceptsAll-bind h k = record {
    apply = λ pre s b bs e.
        let (a, r', e1, e2) = continue-inv_all f (p (at pre s)) b e in
        let (w, rest, t, q) = h.apply pre s a r' bs e1 in
        let left : IsBytes rest = All-append_right _ w rest (rw t.split at bs) in
        rw t.split ((k a w q).apply (pre ++ w) rest b left (rw t.after at e2));
  }

module _ {A : Type 0} where
  pub Accepts-weaken :
      {p : Parser A} {P Q : A → Bytes → Type 0}
      → ((a : A) (w : Bytes) → P a w → Q a w)
      → Accepts p P
      → Accepts p Q
  Accepts-weaken f h = record {
    apply = λ pre s a r bs e. let (w, rest, t, q) = h.apply pre s a r bs e in (w, rest, t, f a w q);
  }

  pub Accepts-lift : (x : Result A) → Accepts (lift x) (λ a w. (x ≡ ok a) × (w ≡ []))
  unfolding lift
  Accepts-lift x = record {
    apply = λ pre s a r bs e. (
      [],
      s,
      record {
        split = refl;
        after =
            sym (ap (λ (t : Result A × Reader). t.1) e) ∙ ap (λ z. at z s) (sym (append-nil pre));
      },
      (ap (λ (t : Result A × Reader). t.0) e, refl),
    );
  }

  pub AcceptsAll-lift :
      {Q : A → Bytes → Type 0} (x : Result A)
      → ((a : A) → x ≡ ok a → Q a [])
      → AcceptsNil (lift x) Q
  unfolding lift
  AcceptsAll-lift x f = record { apply = λ pre a e. f a e }

  or-inv :
      (x : Result A × Reader) (e : Error) (a : A) (r : Reader)
      → rethrow e x ≡ (ok a, r)
      → x ≡ (ok a, r)
  or-inv (ok b, r') e a r h = h
  or-inv (err _, r') e a r h = absurd (cc (ap (λ (t : Result A × Reader). t.0) h))

  pub Accepts-or :
      {p : Parser A} {Q : A → Bytes → Type 0} (e : Error) → Accepts p Q → Accepts (p ‼ e) Q
  unfolding ◌‼◌
  Accepts-or {p} e h = record {
    apply = λ pre s a r bs x. h.apply pre s a r bs (or-inv (p (at pre s)) e a r x);
  }

  pub run-AcceptsAll :
      {p : Parser A} {Q : A → Bytes → Type 0}
      → AcceptsAll p Q
      → (s : Bytes) (a : A) → IsBytes s
      → run p s ≡ ok a
      → Q a s
  unfolding run
  run-AcceptsAll h s a bs e = h.apply [] s a bs e

module _ {B : Type 0} {q : Parser B} {Q : B → Bytes → Type 0} where
  pub Accepts-require :
      (t : Bool) (e : Error) → (t ≡ false → Accepts q Q) → Accepts (require_not t e >> q) Q
  unfolding ◌>>=◌
  Accepts-require true e h = record {
    apply = λ pre s a r bs x. absurd (cc (ap (λ (t : Result B × Reader). t.0) x));
  }
  Accepts-require false e h = h refl

  pub AcceptsAll-require :
      (t : Bool) (e : Error) → (t ≡ false → AcceptsAll q Q) → AcceptsAll (require_not t e >> q) Q
  unfolding ◌>>=◌
  AcceptsAll-require true e h = record { apply = λ pre s a bs x. absurd (cc x) }
  AcceptsAll-require false e h = h refl
