-- ===== src/Store/Keeps/Attach.antt =====
-- internal/store/files.go: AttachFiles takes all the Files that it is asked for, or none.
use buildbee.Base.{
  All, Bool-cases, inl, inr, true, false, subst, exists, ◌&&◌, count_if, is_empty, ℕ, ◌≡◌, refl,
  sym, ap, ◌∙◌, Bool, not, Option, none, some, List, [], ◌∷◌, arith, keep, map, if◌then◌else◌, ◌==◌,
  length,
}
use mathlib.Core.Option
use buildbee.Base.Result.{ok_inj}
use buildbee.Text.{Text, text_eq}
use buildbee.Models.Records.{File}
use buildbee.Store.{Work, pure, changes_work}
use buildbee.Store.Rows.{find_row, update_where, find_row-update_where, find_row_key}
use buildbee.Store.Rows.Keyed.{IsKeyed}
use buildbee.Store.Rows.Picked.{Distinct, named, All-named, picked-all, length-keep}
use buildbee.Store.Keeps.{returned, bind_ok, refuse_ok}
use buildbee.Store.Keeps.Steps.{asked, same_row}
use buildbee.Store.Tables.{attach_files, attachable, attached, file_key}

-- What is left of a File that was found: it belongs to the message, if it could be attached.
abbrev pub attached_if : (File → Bool) → Text → File → File
attached_if p message_id f = if p f then attached message_id f else f

none_attachable :
    (person_id channel_id : Text) (fs : List File)
    → keep (attachable [] person_id channel_id) fs ≡ []
unfolding keep attachable exists
none_attachable person_id channel_id [] = refl
none_attachable person_id channel_id (f ∷ fs) = none_attachable person_id channel_id fs

nothing_attached :
    (message_id person_id channel_id : Text) (o : Option File)
    → o ≡ Option.map (attached_if (attachable [] person_id channel_id) message_id) o
unfolding attachable exists
nothing_attached message_id person_id channel_id none = refl
nothing_attached message_id person_id channel_id (some f) = refl

counted_all : (n k : ℕ) → not (n == k) ≡ false → n ≡ k
counted_all n k h = ground (arith, h)

-- What AttachFiles did, where it returned.
attach_files_steps :
    (ids : List Text) (message_id person_id channel_id : Text) (w w' : Work) (fs : List File)
    → attach_files ids message_id person_id channel_id w ≡ returned fs w'
    → (length (keep (attachable ids person_id channel_id) w.st.files) ≡ length ids)
      × (fs ≡ map (attached message_id) (keep (attachable ids person_id channel_id) w.st.files))
      × ((f : Text)
          → find_row file_key f w'.st.files
            ≡ Option.map
                (attached_if (attachable ids person_id channel_id) message_id)
                (find_row file_key f w.st.files))
unfolding attach_files pure changes_work keep update_where
attach_files_steps [] message_id person_id channel_id w w' fs h =
    let e : [] ≡ fs = ap (λ p. p.0) (ok_inj h) in
    let s : w ≡ w' = ap (λ p. p.1) (ok_inj h) in
    (
      ap length (none_attachable person_id channel_id w.st.files),
      sym e
          ∙ ap (map (attached message_id)) (sym (none_attachable person_id channel_id w.st.files)),
      λ f.
          ap (λ v. find_row file_key f v.st.files) (sym s)
          ∙ nothing_attached message_id person_id channel_id (find_row file_key f w.st.files),
    )
attach_files_steps (i ∷ is) message_id person_id channel_id w w' fs h =
    let p = attachable (i ∷ is) person_id channel_id in
    let h1 = asked (λ v. keep p v.st.files) _ w w' fs h in
    let (x, hx, h2) =
      bind_ok _ (λ _. pure (map (attached message_id) (keep p w.st.files))) w w' fs h1 in
    let (y, hy, h3) = bind_ok _ _ w x.1 x.0 hx in
    let (counted, x_is) = refuse_ok _ _ y.1 x.1 x.0 h3 in
    let fs_is : fs ≡ map (attached message_id) (keep p w.st.files) =
      sym (ap (λ r. r.0) (ok_inj h2)) in
    let w'_is = sym (ap (λ r. r.1) (ok_inj h2)) ∙ x_is ∙ sym (ap (λ r. r.1) (ok_inj hy)) in
    (
      counted_all (length (keep p w.st.files)) (length (i ∷ is)) counted,
      fs_is,
      λ f.
          ap (λ v. find_row file_key f v.st.files) w'_is
          ∙ find_row-update_where file_key p f (attached message_id) w.st.files (λ _. refl),
    )

-- Uploaded by this Person to this Channel, and of no message yet.
abbrev pub free : Text → Text → File → Bool
free person_id channel_id f =
    text_eq f.uploader_person_id person_id
    && text_eq f.channel_id channel_id
    && is_empty f.message_id

picks :
    (ids : List Text) (person_id channel_id : Text) (fs : List File)
    → count_if (attachable ids person_id channel_id) fs
      ≡ count_if (λ f. named file_key ids f && free person_id channel_id f) fs
unfolding count_if attachable exists
picks ids person_id channel_id [] = refl
picks ids person_id channel_id (f ∷ fs) = ground (arith, picks ids person_id channel_id fs)

-- Each of the ids is that of a File that was free.
abbrev pub AllFree : List Text → Text → Text → Work → Type 0
AllFree ids person_id channel_id w =
    All
      (λ i.
        (f : File) × (find_row file_key i w.st.files ≡ some f)
        × (free person_id channel_id f ≡ true))
      ids

-- The row under a key after AttachFiles, from what it found.
abbrev pub attached_row : List Text → Text → Text → Option File → Option File
attached_row ids message_id i o =
    if exists (text_eq i) ids then Option.map (attached message_id) o else o

row_after :
    (ids : List Text) (message_id person_id channel_id i : Text) (w : Work) (o : Option File)
    → AllFree ids person_id channel_id w
    → find_row file_key i w.st.files ≡ o
    → Option.map (attached_if (attachable ids person_id channel_id) message_id) o
      ≡ attached_row ids message_id i o
unfolding attachable
row_after ids message_id person_id channel_id i w none a e = ground arith
row_after ids message_id person_id channel_id i w (some f) a e =
    let same : f.id ≡ i = find_row_key file_key i f w.st.files e in
    elim (Bool-cases (exists (text_eq i) ids)) [
      | inl y ↦
          let (g, e', fr) = All-named _ i ids y a in
          let known : f ≡ g = same_row f g (sym e ∙ e') in
          let there : attachable ids person_id channel_id f ≡ true = ground (
            arith,
            subst (λ k. exists (text_eq k) ids ≡ true) (sym same) y,
            subst (λ k. free person_id channel_id k ≡ true) (sym known) fr,
          ) in
          rw (y, there) refl
      | inr n ↦
          let gone : attachable ids person_id channel_id f ≡ false =
            ground (arith, subst (λ k. exists (text_eq k) ids ≡ false) (sym same) n) in
          rw (n, gone) refl
    ]

-- AttachFiles that returns was given no id twice, and has found a File for every one of them, which
-- was uploaded by that Person to that Channel and belonged to no message. These belong to the
-- message now, and are what is returned; every other File is as it was. The ids of the stored Files
-- are distinct.
pub attach_files_lem :
    (ids : List Text) (message_id person_id channel_id : Text) (w w' : Work) (fs : List File)
    → IsKeyed file_key w.st.files
    → attach_files ids message_id person_id channel_id w ≡ returned fs w'
    → Distinct ids
      × AllFree ids person_id channel_id w
      × (fs ≡ map (attached message_id) (keep (attachable ids person_id channel_id) w.st.files))
      × ((i : Text)
          → find_row file_key i w'.st.files
            ≡ attached_row ids message_id i (find_row file_key i w.st.files))
attach_files_lem ids message_id person_id channel_id w w' fs keyed h =
    let (counted, fs_is, rows) = attach_files_steps ids message_id person_id channel_id w w' fs h in
    let p = attachable ids person_id channel_id in
    let (distinct, found) = picked-all file_key ids (free person_id channel_id) w.st.files keyed (
      sym (picks ids person_id channel_id w.st.files) ∙ sym (length-keep p w.st.files) ∙ counted) in
    (
      distinct,
      found,
      fs_is,
      λ i. rows i ∙ row_after ids message_id person_id channel_id i w _ found refl,
    )
