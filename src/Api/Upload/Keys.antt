-- ===== src/Api/Upload/Keys.antt =====
-- The names under which uploads are stored: their length, and whose they are.
use Prim.Native.String.{◌++◌ as str_append}
use text.Mathlib.TextLemmas.{nil-append, cons-append, append_assoc}
use fastapi_realtime_chat_ba.Prelude.{
  ℕ, zero, suc, ◌≤◌, String, Bool, true, not, ◌&&◌, List, [], ◌∷◌, ◌≡◌, refl, sym, ap, subst, ◌∙◌,
  arith, inl, inr, leb, ◌==◌, str_eq, Bool-cases, false≢true, every, every_of, text_length,
  text_length-append, split_at, split_at_piece,
}
use fastapi_realtime_chat_ba.Models.{Uuid}
use fastapi_realtime_chat_ba.Ids.{hex, uuid_text}
use fastapi_realtime_chat_ba.Auth.{is_user_char, is_user_id}
use fastapi_realtime_chat_ba.Chat.Send.{attachment_prefix}
use fastapi_realtime_chat_ba.Api.{extensions, extension_of}

hex_length : (w n : ℕ) → text_length (hex w n) ≡ w
unfolding hex
hex_length zero n = refl
hex_length (suc w) n = ap suc (hex_length w n)

pub uuid_length : (i : Uuid) → text_length (uuid_text i) ≡ 36
unfolding uuid_text
uuid_length i = simp (text_length-append, hex_length)

all_short : List (String × String) → Bool
all_short [] = true
all_short (e ∷ es) = leb (text_length e.1) 5 && all_short es

extension_of_short :
    (es : List (String × String)) (t : String)
    → all_short es ≡ true
    → text_length (extension_of es t) ≤ 5
unfolding all_short
extension_of_short [] t h = omega arith
extension_of_short (e ∷ es) t h = elim (Bool-cases (str_eq t e.0)) [
  | inl same ↦ rw same (ground arith)
  | inr other ↦ rw other (extension_of_short es t (ground arith))
]

pub extension_length : (t : String) → text_length (extension_of extensions t) ≤ 5
unfolding all_short
extension_length t = extension_of_short extensions t refl

slash_no_user : ¬ (is_user_char b'/' ≡ true)
unfolding is_user_char
slash_no_user h = false≢true h

no_slash : (u : String) → is_user_id u ≡ true → every (λ c. not (c == b'/')) u ≡ true
unfolding is_user_id
no_slash u h = every_of is_user_char _ u slash (ground arith)
  where
    slash : (c : ℕ) → is_user_char c ≡ true → not (c == b'/') ≡ true
    slash c h = elim (Bool-cases (c == b'/')) [
      | inl same ↦
          let e : c ≡ b'/' = ground arith in
          absurd (slash_no_user (subst (λ z. is_user_char z ≡ true) e h))
      | inr other ↦ rw other refl
    ]

-- the text `u/`, the user and a slash, before any rest
unfoldable pub owned : String → String → String
owned user rest = str_append "u/" (str_append user (str_append "/" rest))

slash_rest : (t : String) → str_append "/" t ≡ String.◌∷◌ "/" t
slash_rest t = cons-append "/" "" t ∙ ap (λ z. String.◌∷◌ "/" z) (nil-append t)

owned_pieces :
    (user rest : String)
    → every (λ c. not (c == b'/')) user ≡ true
    → split_at b'/' (owned user rest) ≡ "u" ∷ user ∷ split_at b'/' rest
unfolding owned
owned_pieces user rest h =
    ap (split_at b'/') (
      append_assoc "u" "/" (str_append user (str_append "/" rest))
      ∙ ap (str_append "u") (slash_rest (str_append user (str_append "/" rest))))
    ∙ split_at_piece b'/' "u" "/" (str_append user (str_append "/" rest)) refl refl
    ∙ ap (λ z. "u" ∷ z)
        (ap (λ z. split_at b'/' (str_append user z)) (slash_rest rest)
          ∙ split_at_piece b'/' user "/" rest h refl)

pub owned_prefix : (user rest : String) → str_append (attachment_prefix user) rest ≡ owned user rest
unfolding owned
owned_prefix user rest =
    append_assoc "u/" (str_append user "/") rest ∙ ap (str_append "u/") (append_assoc user "/" rest)

pub owner_unique :
    (u v rest rest' : String)
    → is_user_id u ≡ true
    → is_user_id v ≡ true
    → owned u rest ≡ owned v rest'
    → u ≡ v
owner_unique u v rest rest' a b e =
    let pieces : "u" ∷ u ∷ split_at b'/' rest ≡ "u" ∷ v ∷ split_at b'/' rest' =
      sym (owned_pieces u rest (no_slash u a))
      ∙ ap (split_at b'/') e
      ∙ owned_pieces v rest' (no_slash v b) in
    cc
