-- ===== src/Fcm/Examples.antt =====
-- Push messages, over a curl that counts.
use zway_server.Base.{
  ℕ, zero, suc, ◌∙◌, ◌+◌, ◌-◌, ◌≡◌, refl, ap, Bool, true, false, List, [], ◌∷◌, ◌++◌, Option, none,
  some, arith, ltb, length, Bool-cases, inl, inr,
}
use mathlib.Core.Option
use zway_server.Fcm.{WriteThis, ReadFunction, transfer, read_callback, message_body}
use zway_server.Fcm.Send.{CurlApi, Easy, send_message, fcm_url}
use zway_server.Fcm.Send.Delivery.{Documented, Received, send_message_delivers}

record Curl : Type 0 where
  handles : ℕ
  strings : ℕ
  received : List Received

abbrev body_of : Option (List ℕ) → List ℕ
body_of none = []
body_of (some b) = b

abbrev is_some : Option (List ℕ) → Bool
is_some none = false
is_some (some b) = true

-- What is read through a buffer of one byte.
abbrev read : Easy → Option (List ℕ)
read o = transfer o.read_function (o.read_data.size_left + 1) 1 1 o.read_data

abbrev api : CurlApi Curl
api = record {
  global_init = λ c. c;
  global_cleanup = λ c. c;
  easy_init = λ c. (true, record c { handles = c.handles + 1 });
  easy_cleanup = λ c. record c { handles = c.handles - 1 };
  slist_append = λ l s c. (l ++ s ∷ [], record c { strings = c.strings + 1 });
  slist_free_all = λ l c. record c { strings = c.strings - length l };
  perform = λ o c. (
    is_some (read o),
    record c {
      received =
          record { url = o.url; header = o.http_header; body = body_of (read o) } ∷ c.received;
    },
  );
}

map-agree :
    (bytes a : List ℕ) (x y : Option (List ℕ))
    → ((b : List ℕ) → x ≡ some b → is_some y ≡ true → body_of y ≡ b)
    → Option.map (λ l. bytes ++ l) x ≡ some a
    → is_some (Option.map (λ l. bytes ++ l) y) ≡ true
    → body_of (Option.map (λ l. bytes ++ l) y) ≡ a
map-agree bytes a none y h e s = absurd (ground arith)
map-agree bytes a (some b) none h e s = absurd (ground arith)
map-agree bytes a (some b) (some c) h e s = ap (λ l. bytes ++ l) (h b refl refl) ∙ ap body_of e

transfer-agree :
    (r : ReadFunction) (f g n m : ℕ) (w : WriteThis) (a : List ℕ)
    → transfer r f n m w ≡ some a
    → is_some (transfer r g n m w) ≡ true
    → body_of (transfer r g n m w) ≡ a
unfolding transfer
transfer-agree r zero g n m w a e s = absurd (ground arith)
transfer-agree r (suc f) zero n m w a e s = absurd (ground arith)
transfer-agree r (suc f) (suc g) n m w a e s =
    let next = r n m w in
    elim (Bool-cases (ltb 0 (length next.0))) [
      | inl more ↦ rw more (
          map-agree next.0 a (transfer r f n m next.1) (transfer r g n m next.1)
            (λ b. transfer-agree r f g n m next.1 b) (rw more at e) (rw more at s))
      | inr last ↦ rw last (ap body_of (rw last at e))
    ]

laws : Documented api
laws = record {
  handles = λ c. c.handles;
  strings = λ c. c.strings;
  received = λ c. c.received;
  size = λ c. 1;
  nmemb = λ c. 1;
  size_lem = λ c. omega arith;
  init_lem = λ c got. (refl, refl, refl);
  no_init_lem = λ c no. absurd (ground arith);
  cleanup_lem = λ c. (refl, refl, refl);
  append_lem = λ l s c. (refl, refl, refl, refl);
  free_lem = λ l c. (refl, refl, refl);
  perform_lem = λ o c. (refl, refl);
  posted_lem = λ o c f body ok post e.
      ap (λ b. record { url = o.url; header = o.http_header; body = b } ∷ c.received)
        (transfer-agree o.read_function f (o.read_data.size_left + 1) 1 1 o.read_data body e ok);
}

abbrev idle : Curl
idle = record { handles = 0; strings = 0; received = [] }

ok : (send_message api "Authorization: key=" (65 ∷ []) 1000 3 idle).0 ≡ true
unfolding send_message message_body transfer read_callback
ok = refl

send_message_delivers_example :
    laws.received (send_message api "Authorization: key=" (65 ∷ []) 1000 3 idle).1
    ≡ record {
      url = fcm_url;
      header =
          "Transfer-Encoding: chunked" ∷ "Content-Type: application/json" ∷ "Authorization: key="
          ∷ [];
      body = message_body (65 ∷ []) 1000 3;
    }
      ∷ laws.received idle
send_message_delivers_example =
    send_message_delivers api laws "Authorization: key=" (65 ∷ []) 1000 3 idle ok
