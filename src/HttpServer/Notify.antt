-- ===== src/HttpServer/Notify.antt =====
-- The /NOTIFY route of src/http_server.c: which requests reach the notifier, and with which hash.
use rpcracer.Prelude.{
  ℕ, zero, suc, ◌+◌, ◌≡◌, ◌≢◌, ◌⊎◌, ◌==◌, ◌/◌, ◌%◌, refl, sym, ap, ◌∙◌, arith, Bool, true, not,
  ◌&&◌, ◌||◌, some, List, [], ◌∷◌, ◌++◌, length, take, if_rule, option_rule, is_some, inl, inr,
}
use rpcracer.Framing.{Lacks, codes, strchr, starts_with}
use rpcracer.Util.{hex_decode, hex_encode, hex_char_val, hex_digit, is_even}
use rpcracer.Util.Hex.{
  IsText, hex_decode-IsText, are_hex_of_text, AreBytes, are_hex, is_nonempty, hex_decode-encode,
  hex_decode-is_some,
}
use rpcracer.Notifier.{Env, Effect}
use rpcracer.Notifier.Process.{notifier_process_hash}
use rpcracer.HttpServer.{
  HttpServer, Response, all_hex, is_hex_char, node_label, notify_route, route, http_handle_request,
  ok_response, invalid_hash,
}

is_hex_char_lem : (c : ℕ) → is_hex_char c ≡ is_some (hex_char_val c)
unfolding is_hex_char hex_char_val
is_hex_char_lem c = ground arith

all_hex_lem : (cs : List ℕ) → all_hex cs ≡ are_hex cs
unfolding all_hex
all_hex_lem [] = refl
all_hex_lem (c ∷ cs) = rw (is_hex_char_lem c, all_hex_lem cs) refl

even_64 : (n : ℕ) (cs : List ℕ) → length cs ≡ n + n → is_even cs ≡ true
even_64 zero [] e = refl
even_64 zero (c ∷ cs) e = absurd (omega arith)
even_64 (suc n) [] e = refl
even_64 (suc n) (c ∷ []) e = absurd (omega arith)
even_64 (suc n) (c ∷ d ∷ cs) e = even_64 n cs (omega arith)

pub strchr-append :
    (c : ℕ) (xs ys : List ℕ) → Lacks c xs → strchr c (xs ++ (c ∷ ys)) ≡ some (length xs)
unfolding strchr
strchr-append c [] ys h = ground arith
strchr-append c (x ∷ xs) ys h = ground (arith, strchr-append c xs ys h.1)

pub take_prefix : (xs ys : List ℕ) → take (length xs) (xs ++ ys) ≡ xs
take_prefix [] ys = refl
take_prefix (x ∷ xs) ys = ap (λ zs. x ∷ zs) (take_prefix xs ys)

digit_visible : (v : ℕ) → hex_digit v ≢ 32
unfolding hex_digit
digit_visible v e = ground arith

encode_visible : (bs : List ℕ) → Lacks 32 (hex_encode bs)
unfolding hex_encode
encode_visible [] = tt
encode_visible (b ∷ bs) = (digit_visible (b / 16 % 16), (digit_visible (b % 16), encode_visible bs))

length-hex_encode : (bs : List ℕ) → length (hex_encode bs) ≡ length bs + length bs
unfolding hex_encode
length-hex_encode [] = refl
length-hex_encode (b ∷ bs) = omega (arith, length-hex_encode bs)

-- The notification is accepted as one, with this hash.
abbrev pub Notifies :
    Env → List ℕ → List ℕ → HttpServer → HttpServer × List Effect × Response → Type 0
Notifies env peer hash srv (srv', effects, r) =
    let p = notifier_process_hash env hash (some (node_label peer srv.nodes)) srv.notifier in
    (r ≡ ok_response) × (srv'.notifier ≡ p.0) × (effects ≡ p.1)

-- The server and the world are as before, and the answer is the error.
abbrev pub Rejects : HttpServer → HttpServer × List Effect × Response → Type 0
Rejects srv (srv', effects, r) = (r ≡ invalid_hash) × (srv' ≡ srv) × (effects ≡ [])

-- What the route does with a text.
abbrev pub IsRouted :
    Env → List ℕ → List ℕ → HttpServer → HttpServer × List Effect × Response → Type 0
IsRouted env peer hex srv r =
    ((length hex ≡ 64) × ((hash : List ℕ) × IsText hash hex × Notifies env peer hash srv r))
    ⊎ ((length hex ≡ 64 → (hash : List ℕ) → IsText hash hex → ⊥) × Rejects srv r)

decodes :
    (hex : List ℕ)
    → (length hex == 64) ≡ true
    → are_hex hex ≡ true
    → is_some (hex_decode hex) ≡ true
decodes [] n h = ground arith
decodes (c ∷ cs) n h = hex_decode-is_some (c ∷ cs) ∙ rw (even_64 32 (c ∷ cs) (ground arith), h) refl

-- For every text after /NOTIFY/: if it is 64 characters, two hexadecimal digits in small or capital
-- letters for each of some bytes, the notifier gets these bytes and the answer is OK; any other text
-- is refused as an invalid hash and changes nothing.
pub notify_route_lem :
    (env : Env) (peer hex : List ℕ) (srv : HttpServer)
    → IsRouted env peer hex srv (notify_route env peer hex srv)
unfolding notify_route
notify_route_lem env peer hex srv =
    if_rule (IsRouted env peer hex srv) (not (length hex == 64) || not (all_hex hex)) _ _
      (λ bad. inr (
        λ n hash t.
            let h : are_hex hex ≡ true = are_hex_of_text hash hex t in
            ground (arith, all_hex_lem hex),
        (refl, refl, refl),
      ))
      (λ good.
        let n : (length hex == 64) ≡ true = ground arith in
        let h : are_hex hex ≡ true = ground (arith, all_hex_lem hex) in
        option_rule (IsRouted env peer hex srv) (hex_decode hex) _ _
          (λ e. absurd (ground (arith, decodes hex n h)))
          (λ hash e. inl (ground arith, (hash, hex_decode-IsText hex hash e, (refl, refl, refl)))))

-- The text of a request for a notification of this hash.
abbrev pub notification : List ℕ → List ℕ → List ℕ
notification hash rest = codes "GET /NOTIFY/" ++ (hex_encode hash ++ (32 ∷ rest))

abbrev notify_path : List ℕ → List ℕ
notify_path hash = codes "/NOTIFY/" ++ hex_encode hash

nonempty_of_length : (hash : List ℕ) → length hash ≡ 32 → hash ≢ []
nonempty_of_length hash n e = ground (arith, ap length e)

third_true : (x y z : Bool) → (x && (y && z)) ≡ true → z ≡ true
third_true x y z h = ground arith

encode_hex : (hash : List ℕ) → hash ≢ [] → AreBytes hash → all_hex (hex_encode hash) ≡ true
encode_hex hash n b =
    let text = hex_encode hash in
    all_hex_lem text
    ∙ third_true (is_nonempty text) (is_even text) (are_hex text)
        (sym (hex_decode-is_some text) ∙ ap is_some (hex_decode-encode hash n b))

length-encode_hash : (hash : List ℕ) → length hash ≡ 32 → length (hex_encode hash) ≡ 64
length-encode_hash hash n = omega (arith, length-hex_encode hash)

notify_route_encode :
    (env : Env) (peer hash : List ℕ) (srv : HttpServer)
    → length hash ≡ 32
    → AreBytes hash
    → Notifies env peer hash srv (notify_route env peer (hex_encode hash) srv)
unfolding notify_route
notify_route_encode env peer hash srv n b =
    let ne = nonempty_of_length hash n in
    rw (length-encode_hash hash n, encode_hex hash ne b, hex_decode-encode hash ne b)
      (refl, refl, refl)

strchr-encode :
    (hash rest : List ℕ) → length hash ≡ 32 → strchr 32 (hex_encode hash ++ (32 ∷ rest)) ≡ some 64
strchr-encode hash rest n =
    strchr-append 32 (hex_encode hash) rest (encode_visible hash)
    ∙ ap some (length-encode_hash hash n)

take-encode :
    (hash rest : List ℕ) → length hash ≡ 32 → take 64 (hex_encode hash ++ rest) ≡ hex_encode hash
take-encode hash rest n =
    ap (λ k. take k (hex_encode hash ++ rest)) (sym (length-encode_hash hash n))
    ∙ take_prefix (hex_encode hash) rest

route_notification :
    (env : Env) (peer hash : List ℕ) (srv : HttpServer)
    → length hash ≡ 32
    → AreBytes hash
    → Notifies env peer hash srv (route env peer (notify_path hash) srv)
unfolding route starts_with
route_notification env peer hash srv n b = notify_route_encode env peer hash srv n b

-- A request for the hexadecimal text of 32 bytes, whatever follows it, reaches the notifier with
-- these bytes and the label of the client's node, and is answered with OK.
pub http_handle_request-notification :
    (env : Env) (peer hash rest : List ℕ) (srv : HttpServer)
    → length hash ≡ 32
    → AreBytes hash
    → Notifies env peer hash srv (http_handle_request env peer (notification hash rest) srv)
unfolding http_handle_request strchr starts_with
http_handle_request-notification env peer hash rest srv n b =
    rw (strchr-encode hash rest n, take-encode hash (32 ∷ rest) n)
      (route_notification env peer hash srv n b)
