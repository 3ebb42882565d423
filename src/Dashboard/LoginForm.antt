-- ===== src/Dashboard/LoginForm.antt =====
-- The login form, from the browser to the server.
use rfrpv.Prelude.{
  ◌<◌, ◌≡◌, refl, String, sym, ap, ◌∙◌, [], ◌∷◌, ◌++◌, IsBytes, All, All-append, arith,
}
use rfrpv.Text.{Chars, codes, split, eq_chars}
use rfrpv.Text.Trims.{Lacks, split-append, split-Lacks, split_once-append}
use rfrpv.Dashboard.Credentials.{Codec}
use rfrpv.Dashboard.Body.{parse_login_form, read_fields, percent_decode, percent_bytes}
use rfrpv.Dashboard.Forms.{
  percent_encode, percent_bytes-encode, IsFormText, percent_encode-IsFormText,
}

lossy-ascii : (k : Codec) (s : Chars) → All (λ c. c < 128) s → k.from_utf8_lossy s ≡ s
lossy-ascii k s h = ap k.from_utf8_lossy (sym (k.utf8-ascii s h)) ∙ k.lossy-utf8 s

IsFormText-ascii : (s : Chars) → All IsFormText s → All (λ c. c < 128) s
IsFormText-ascii [] h = tt
IsFormText-ascii (c ∷ s) h = (h.0.0, IsFormText-ascii s h.1)

IsFormText-Lacks : (s : Chars) → All IsFormText s → Lacks b'&' s
IsFormText-Lacks [] h = tt
IsFormText-Lacks (c ∷ s) h = (h.0.1, IsFormText-Lacks s h.1)

-- The value of a field, as a browser writes it.
abbrev pub form_value : Codec → Chars → Chars
form_value k s = percent_encode (k.utf8 s)

-- A field of a form, and the body that a browser posts.
abbrev pub form_field : Codec → String → Chars → Chars
form_field k name s = codes name ++ b'=' ∷ form_value k s

abbrev pub form_body : Codec → Chars × Chars → Chars
form_body k (user, pass) = form_field k "user" user ++ b'&' ∷ form_field k "password" pass

module _ (k : Codec) where
  percent_decode-ascii :
      (s : Chars) → All (λ c. c < 128) s → percent_decode k s ≡ k.from_utf8_lossy (percent_bytes s)
  unfolding percent_decode
  percent_decode-ascii s h = ap (λ x. k.from_utf8_lossy (percent_bytes x)) (k.utf8-ascii s h)

  percent_decode-form_value :
      (s : Chars) → IsBytes (k.utf8 s) → percent_decode k (form_value k s) ≡ s
  percent_decode-form_value s h =
      percent_decode-ascii (form_value k s)
        (IsFormText-ascii (form_value k s) (percent_encode-IsFormText (k.utf8 s) h))
      ∙ ap k.from_utf8_lossy (percent_bytes-encode (k.utf8 s) h)
      ∙ k.lossy-utf8 s

  percent_decode-user : percent_decode k (codes "user") ≡ codes "user"
  percent_decode-user =
      percent_decode-ascii (codes "user") (omega arith)
      ∙ unfold percent_bytes in lossy-ascii k (codes "user") (omega arith)

  percent_decode-password : percent_decode k (codes "password") ≡ codes "password"
  percent_decode-password =
      percent_decode-ascii (codes "password") (omega arith)
      ∙ unfold percent_bytes in lossy-ascii k (codes "password") (omega arith)

  module _ (user pass : Chars) (hu : IsBytes (k.utf8 user)) (hp : IsBytes (k.utf8 pass)) where
    read_fields-form :
        read_fields k (form_field k "user" user ∷ form_field k "password" pass ∷ []) ([], [])
        ≡ (user, pass)
    unfolding read_fields eq_chars
    read_fields-form =
        rw
          (
            split_once-append b'=' (codes "user") (form_value k user) (ground arith),
            percent_decode-user,
            percent_decode-form_value user hu,
            split_once-append b'=' (codes "password") (form_value k pass) (ground arith),
            percent_decode-password,
            percent_decode-form_value pass hp,
          )
          refl

    form_body-ascii : All (λ c. c < 128) (form_body k (user, pass))
    form_body-ascii =
        let u = IsFormText-ascii _ (percent_encode-IsFormText (k.utf8 user) hu) in
        let p = IsFormText-ascii _ (percent_encode-IsFormText (k.utf8 pass) hp) in
        All-append (λ c. c < 128) (form_field k "user" user) (b'&' ∷ form_field k "password" pass)
          (All-append (λ c. c < 128) (codes "user=") (form_value k user) (omega arith) u)
          (All-append (λ c. c < 128) (codes "&password=") (form_value k pass) (omega arith) p)

    split-form_body :
        split b'&' (form_body k (user, pass))
        ≡ form_field k "user" user ∷ form_field k "password" pass ∷ []
    split-form_body =
        let u = IsFormText-Lacks _ (percent_encode-IsFormText (k.utf8 user) hu) in
        let p = IsFormText-Lacks _ (percent_encode-IsFormText (k.utf8 pass) hp) in
        split-append b'&' (form_field k "user" user) (form_field k "password" pass)
          (All-append _ (codes "user=") (form_value k user) (ground arith) u)
        ∙ ap (λ t. form_field k "user" user ∷ t)
            (split-Lacks b'&' (form_field k "password" pass)
              (All-append _ (codes "password=") (form_value k pass) (ground arith) p))

    -- The login form arrives as it was filled in: from the body that a browser posts for a user and
    -- a password, whatever characters they are made of, the server reads this user and this
    -- password. Their UTF-8 forms are bytes.
    pub parse_login_form-form_body : parse_login_form k (form_body k (user, pass)) ≡ (user, pass)
    unfolding parse_login_form
    parse_login_form-form_body =
        ap (λ t. read_fields k (split b'&' t) ([], []))
          (lossy-ascii k (form_body k (user, pass)) form_body-ascii)
        ∙ ap (λ ps. read_fields k ps ([], [])) split-form_body
        ∙ read_fields-form
