-- ===== src/Api/SignIn/Cookies.antt =====
-- The cookie of a session, from the response that sets it to the request that carries it.
use text.Mathlib.TextLemmas.{nil-append, cons-append, append_assoc}
use relaydot.Prelude.{
  String, some, Option, ◌≡◌, refl, sym, ap, ◌∙◌, ◌+ˢ◌, if◌then◌else◌, Result-cases, inl, inr, ok,
  arith, first_or, split_on, cut_at, trim, [], ◌∷◌, Lacks, append-Lacks, split_on-part,
  split_on-last, cut_at-part,
}
use relaydot.Access.{
  Runtime, Request, find_cookie, read_cookie, is_secure_request, session_cookie,
  session_cookie_name,
}

-- What a browser sends back of a `Set-Cookie` header: the name and the value, without the attributes.
abbrev pub cookie_pair : String → String
cookie_pair set_cookie = first_or "" (split_on b';' set_cookie)

abbrev pair_of : String → String
pair_of value = session_cookie_name +ˢ ("=" +ˢ value)

pair_of-Lacks : (value : String) → Lacks b';' value → Lacks b';' (pair_of value)
pair_of-Lacks value h =
    append-Lacks b';' session_cookie_name _ (ground arith)
      (append-Lacks b';' "=" value (refl, tt) h)

cut_at-pair : (value : String) → cut_at b'=' (pair_of value) ≡ some (session_cookie_name, value)
cut_at-pair value =
    rw (cons-append "=" "" value, nil-append)
      (cut_at-part b'=' "=" refl session_cookie_name value (ground arith))

attributes-Lacks :
    (value rest : String)
    → Lacks b';' value
    → cookie_pair (session_cookie_name +ˢ ("=" +ˢ (value +ˢ ("; Path=/; HttpOnly; " +ˢ rest))))
      ≡ pair_of value
attributes-Lacks value rest h = rw (
  sym (append_assoc "=" value ("; Path=/; HttpOnly; " +ˢ rest)),
  sym (append_assoc session_cookie_name ("=" +ˢ value) ("; Path=/; HttpOnly; " +ˢ rest)),
  cons-append ";" " Path=/; HttpOnly; " rest,
  split_on-part b';' ";" refl (pair_of value) _ (pair_of-Lacks value h),
)

module _ (rt : Runtime) (token : String) (is_value : Lacks b';' (rt.encode_uri token))
    (is_trimmed : trim (rt.encode_uri token) ≡ rt.encode_uri token)
    (decode-encode : rt.decode_uri (rt.encode_uri token) ≡ some token) where
  session_cookie-pair :
      (r : Request) (max_age cookie : String) (public_url : Option String)
      → session_cookie rt r token max_age public_url ≡ ok cookie
      → cookie_pair cookie ≡ pair_of (rt.encode_uri token)
  unfolding session_cookie
  session_cookie-pair r max_age cookie public_url h =
      elim (Result-cases (is_secure_request rt r public_url)) [
        | inr (e, i) ↦ absurd (ground arith)
        | inl (secure, i) ↦
            let same : session_cookie_name
                  +ˢ ("="
                      +ˢ (rt.encode_uri token
                          +ˢ ("; Path=/; HttpOnly; "
                              +ˢ ("SameSite=Lax; Max-Age="
                                  +ˢ (max_age +ˢ (if secure then "; Secure" else ""))))))
                ≡ cookie =
              ground arith in
            ap cookie_pair (sym same) ∙ attributes-Lacks (rt.encode_uri token) _ is_value
      ]

  find_cookie-pair :
      find_cookie rt session_cookie_name (pair_of (rt.encode_uri token) ∷ []) ≡ ok (some token)
  unfolding find_cookie
  find_cookie-pair = ground (arith, cut_at-pair (rt.encode_uri token), is_trimmed, decode-encode)

  -- The cookie of a token is read as that token from the request that carries it.
  pub read_cookie-session_cookie :
      (r later : Request) (max_age cookie : String) (public_url : Option String)
      → session_cookie rt r token max_age public_url ≡ ok cookie
      → later.cookie ≡ some (cookie_pair cookie)
      → read_cookie rt later ≡ ok (some token)
  unfolding read_cookie
  read_cookie-session_cookie r later max_age cookie public_url h sends = rw (
    sends,
    session_cookie-pair r max_age cookie public_url h,
    split_on-last b';' (pair_of (rt.encode_uri token)) (pair_of-Lacks _ is_value),
    find_cookie-pair,
  )
