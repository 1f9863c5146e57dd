-- ===== src/Stream/Ended.antt =====
-- crates/pbsgui-engine/src/sql/vdi.rs: a consumer that reached the end of its stream.
use pbsgui.Base.{
  Bool, [], ap, arith, err, err≢ok, ok, ok-injective, refl, suc, sym, true, zero, ℕ, ◌++◌, ◌<◌, ◌∙◌,
  ◌∷◌, ◌≡◌,
}
use pbsgui.Base.Bytes.{Bytes}
use pbsgui.Stream.{IoResult}
use pbsgui.Stream.Reader.{verdict_of, read}
use pbsgui.Stream.Reader.Refines.{Reads, delivered, ended, truncated, left, read-Reads}
use pbsgui.Stream.Pipe.{collect, read_to_end}
use pbsgui.Stream.Reader.{ChannelReader}

collected :
    (size : ℕ) (v : Bool) (before after bytes : Bytes) (res rest : IoResult Bytes)
    → Reads size v before after res
    → collect res rest ≡ ok bytes
    → ((more : Bytes) → rest ≡ ok more → (v ≡ true) × (more ≡ after))
    → (v ≡ true) × (bytes ≡ before)
unfolding collect
collected size v before after bytes _ rest (delivered [] split some_byte fits) h ih =
    absurd (omega arith)
collected size v before after bytes _ (err e) (delivered (b ∷ bs) split some_byte fits) h ih =
    absurd (err≢ok h)
collected size v before after bytes _ (ok more) (delivered (b ∷ bs) split some_byte fits) h ih =
    let (good, same) = ih more refl in
    (good, sym (ok-injective h) ∙ ap (λ l. b ∷ bs ++ l) same ∙ sym split)
collected size v before after bytes _ rest (ended eb ea good) h ih =
    (good, sym (ok-injective h) ∙ sym eb)
collected size v before after bytes _ rest (truncated eb ea bad) h ih = absurd (err≢ok h)

-- A consumer that reads to the end and gets bytes has got all of them, and the verdict is `true`.
pub read_to_end-ok :
    (fuel size : ℕ) (r : ChannelReader) (bytes : Bytes)
    → 0 < size
    → read_to_end fuel size r ≡ ok bytes
    → (verdict_of r ≡ true) × (bytes ≡ left r)
unfolding read_to_end
read_to_end-ok zero size r bytes room h = absurd (err≢ok h)
read_to_end-ok (suc fuel) size r bytes room h =
    let (reads, same) = read-Reads size r room in
    collected size (verdict_of r) (left r) (left (read size r).1) bytes (read size r).0
      (read_to_end fuel size (read size r).1) reads h
      (λ more e.
        let (good, those) = read_to_end-ok fuel size (read size r).1 more room e in
        (sym same ∙ good, those))
