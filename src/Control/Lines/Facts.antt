-- ===== src/Control/Lines/Facts.antt =====
-- What a Read of LinesReader (control/util.go) delivers.
use rumor.Base.{
  ℕ, zero, suc, ◌+◌, ◌-◌, ◌≤◌, ◌<◌, ◌≡◌, ◌≢◌, refl, sym, ap, ◌∙◌, ◌⊎◌, inl, inr, true, ◌||◌, List,
  [], ◌∷◌, ◌++◌, length, take, drop, none, nat_beq, leb, arith, length-append, length-take,
  take-append-drop, Bool-cases,
}
use mathlib.Core.List.{append_assoc, append-nil}
use rumor.Control.Text.{Text}
use rumor.Control.Lines.{
  Next, line, failed, newline, ends_line, LinesReader, ReadLines, Turn, returns, goes_on, copy_line,
  fetched, next_bytes, turn, read_loop, read_lines,
}

module _ {Source : Type 0} (fn : Source → Next Source) where
  -- The lines that a source gives before it is another.
  pub data Takes : Source → List Text → Source → Type 0 where
    nothing : {s : Source} → Takes s [] s
    taken :
        {s s' s'' : Source} {text : Text} {texts : List Text}
        → fn s ≡ line text s'
        → Takes s' texts s''
        → Takes s (text ∷ texts) s''
    refused :
        {s s' s'' : Source} {e : ℕ} {texts : List Text}
        → fn s ≡ failed e s'
        → Takes s' texts s''
        → Takes s texts s''

  unfoldable pub joined_lines : List Text → Text
  joined_lines [] = []
  joined_lines (text ∷ texts) = (text ++ (newline ∷ [])) ++ joined_lines texts

  -- What `p` with what was kept and the lines of the source comes to.
  pub record Delivers (len : ℕ) (p : Text) (lr : LinesReader fn) (got : ReadLines fn) : Type 0 where
    pub texts : List Text
    pub from_source : Takes lr.source texts got.reader.source
    pub conserved : p ++ (lr.last ++ joined_lines texts) ≡ got.written ++ got.reader.last
    pub fits : length got.written ≤ len
    pub reason : (got.error ≢ none) ⊎ ((length got.written ≡ len) ⊎ (ends_line got.written ≡ true))

  -- A round that goes on has written at least a byte, and lost none.
  record Moves (len : ℕ) (p : Text) (lr : LinesReader fn) (p' : Text) (lr' : LinesReader fn)
      : Type 0 where
    texts : List Text
    from_source : Takes lr.source texts lr'.source
    conserved : p ++ (lr.last ++ joined_lines texts) ≡ p' ++ lr'.last
    grows : length p < length p'
    fits : length p' ≤ len

  abbrev Good : ℕ → Text → LinesReader fn → Turn fn → Type 0
  Good len p lr (returns r) = Delivers len p lr r
  Good len p lr (goes_on p' lr') = Moves len p lr p' lr'

  Takes-append :
      {s s' s'' : Source} {xs ys : List Text}
      → Takes s xs s'
      → Takes s' ys s''
      → Takes s (xs ++ ys) s''
  Takes-append nothing t = t
  Takes-append (taken e r) t = taken e (Takes-append r t)
  Takes-append (refused e r) t = refused e (Takes-append r t)

  joined_lines-append :
      (xs ys : List Text) → joined_lines (xs ++ ys) ≡ joined_lines xs ++ joined_lines ys
  unfolding joined_lines
  joined_lines-append [] ys = refl
  joined_lines-append (x ∷ xs) ys =
      ap (λ t. (x ++ (newline ∷ [])) ++ t) (joined_lines-append xs ys)
      ∙ sym (append_assoc (x ++ (newline ∷ [])) (joined_lines xs) (joined_lines ys))

  copied : (n : ℕ) (p text : Text) → p ++ text ≡ (p ++ take n text) ++ drop n text
  copied n p text =
      ap (λ t. p ++ t) (sym (take-append-drop n text))
      ∙ sym (append_assoc p (take n text) (drop n text))

  length-copied :
      (len : ℕ) (p text : Text)
      → length p < len
      → 0 < length text
      → (length p < length (p ++ take (len - length p) text))
        × (length (p ++ take (len - length p) text) ≤ len)
  length-copied len p text room some_text =
      let n = length-append p (take (len - length p) text) in
      let m = length-take (len - length p) text in (ground arith, ground arith)

  fetched-Good :
      (len : ℕ) (p : Text) (source : Source) (next : Next Source)
      → fn source ≡ next
      → length p < len
      → Good len p (record { source = source; last = [] }) (fetched fn len p next)
  unfolding fetched copy_line joined_lines
  fetched-Good len p source (line text source') e room =
      let full = text ++ (newline ∷ []) in
      let (grows, fits) =
        length-copied len p full room (ground (arith, length-append text (newline ∷ []))) in
      record {
        texts = text ∷ [];
        from_source = taken e nothing;
        conserved = rw (append-nil full) (copied (len - length p) p full);
        grows = grows;
        fits = fits;
      }
  fetched-Good len p source (failed e source') same room = record {
    texts = [];
    from_source = refused same nothing;
    conserved = refl;
    fits = ground arith;
    reason = inl (λ gone. cc);
  }

  next_bytes-Good :
      (len : ℕ) (p last : Text) (source : Source)
      → length p < len
      → Good len p
          (record { source = source; last = last })
          (next_bytes fn len p (record { source = source; last = last }))
  unfolding next_bytes copy_line joined_lines
  next_bytes-Good len p (c ∷ cs) source room =
      let (grows, fits) = length-copied len p (c ∷ cs) room (ground arith) in
      record {
        texts = [];
        from_source = nothing;
        conserved = rw (append-nil (c ∷ cs)) (copied (len - length p) p (c ∷ cs));
        grows = grows;
        fits = fits;
      }
  next_bytes-Good len p [] source room = fetched-Good len p source (fn source) refl room

  stop_reason :
      (len : ℕ) (p : Text)
      → length p ≤ len
      → (nat_beq len 0 || leb len (length p) || ends_line p) ≡ true
      → (length p ≡ len) ⊎ (ends_line p ≡ true)
  stop_reason len p h e = elim (Bool-cases (ends_line p)) [
    | inl t ↦ inr t
    | inr f ↦ inl (ground arith)
  ]

  turn-Good :
      (len : ℕ) (p : Text) (lr : LinesReader fn) → length p ≤ len → Good len p lr (turn fn len p lr)
  unfolding turn joined_lines
  turn-Good len p lr h = elim (Bool-cases (nat_beq len 0 || leb len (length p) || ends_line p)) [
    | inl t ↦
        rw (turn, t)
          (record {
            texts = [];
            from_source = nothing;
            conserved = ap (λ t. p ++ t) (append-nil lr.last);
            fits = h;
            reason = inr (stop_reason len p h t);
          })
    | inr f ↦ rw (turn, f) (next_bytes-Good len p lr.last lr.source (ground arith))
  ]

  carried :
      (p last jg jd p' last' out : Text)
      → p ++ (last ++ jg) ≡ p' ++ last'
      → p' ++ (last' ++ jd) ≡ out
      → p ++ (last ++ (jg ++ jd)) ≡ out
  carried p last jg jd p' last' out e f =
      ap (λ t. p ++ t) (sym (append_assoc last jg jd))
      ∙ sym (append_assoc p (last ++ jg) jd)
      ∙ ap (λ t. t ++ jd) e
      ∙ append_assoc p' last' jd
      ∙ f

  after_turn-Delivers :
      (fuel len : ℕ) (p : Text) (lr : LinesReader fn) (t : Turn fn)
      → Good len p lr t
      → len ≤ suc fuel + length p
      → ((p' : Text) (lr' : LinesReader fn)
          → length p' ≤ len
          → len ≤ fuel + length p'
          → Delivers len p' lr' (read_loop fn fuel len p' lr'))
      → Delivers len p lr (elim t [ returns r ↦ r | goes_on p' lr' ↦ read_loop fn fuel len p' lr' ])
  after_turn-Delivers fuel len p lr (returns r) g enough rest = g
  after_turn-Delivers fuel len p lr (goes_on p' lr') g enough rest =
      let d = rest p' lr' g.fits (omega (arith, g.grows)) in
      record {
        texts = g.texts ++ d.texts;
        from_source = Takes-append g.from_source d.from_source;
        conserved =
            ap (λ t. p ++ (lr.last ++ t)) (joined_lines-append g.texts d.texts)
            ∙ carried p lr.last (joined_lines g.texts) (joined_lines d.texts) p' lr'.last _
                g.conserved d.conserved;
        fits = d.fits;
        reason = d.reason;
      }

  read_loop-Delivers :
      (fuel len : ℕ) (p : Text) (lr : LinesReader fn)
      → length p ≤ len
      → len ≤ fuel + length p
      → Delivers len p lr (read_loop fn fuel len p lr)
  unfolding read_loop joined_lines
  read_loop-Delivers zero len p lr h enough = record {
    texts = [];
    from_source = nothing;
    conserved = ap (λ t. p ++ t) (append-nil lr.last);
    fits = h;
    reason = inr (inl (omega arith));
  }
  read_loop-Delivers (suc fuel) len p lr h enough =
      after_turn-Delivers fuel len p lr (turn fn len p lr) (turn-Good len p lr h) enough
        (λ p' lr' h' enough'. read_loop-Delivers fuel len p' lr' h' enough')

  -- A Read takes some next lines from its source, and of the bytes that it had kept, followed by these
  -- lines with a line break behind each, none is lost, added or moved: they are what it writes,
  -- followed by what it keeps. It writes no more than there is room for, and stops for no reason but
  -- an error of the source, the end of the room, or the end of a line.
  pub read_lines-Delivers :
      (lr : LinesReader fn) (len : ℕ) → Delivers len [] lr (read_lines fn lr len)
  unfolding read_lines
  read_lines-Delivers lr len = read_loop-Delivers len len [] lr (omega arith) (omega arith)
