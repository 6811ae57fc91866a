-- ===== src/Response/Build/Once.antt =====
-- A response is sent once: `uvhttp_response_send` of src/uvhttp_response.c.
use uvhttp.Prelude.{
  ℕ, true, false, List, [], Option, none, some, ◌≡◌, refl, ap, sym, ◌∙◌, if_false, if_true, ◌⊎◌,
  Bool-cases, inl, inr,
}
use uvhttp.Error.{Result, ok, err}
use uvhttp.Response.{Response}
use uvhttp.Response.Build.{Prepared, build_data, finish, transmit, Sent, response_send}

module _ (deflate : List ℕ → Option (List ℕ)) (crc32 hash : List ℕ → ℕ) (asked filled : ℕ)
    (send_raw : List ℕ → Result (Unit {0})) where
  finish-sent :
      (r : Response) (message : List ℕ) (o : Result (Unit {0}))
      → (finish deflate crc32 hash asked filled r message o).0.sent ≡ true
  finish-sent r message (ok _) = refl
  finish-sent r message (err e) = refl

  transmit-sent :
      (o : Option Prepared) (out : Sent deflate crc32 hash asked filled)
      → transmit deflate crc32 hash asked filled send_raw o ≡ some out
      → out.0.sent ≡ true
  transmit-sent none out e = absurd cc
  transmit-sent (some (r, message)) out e =
      let same : finish deflate crc32 hash asked filled r message (send_raw message) ≡ out = cc in
      ap (λ (x : Sent deflate crc32 hash asked filled). x.0.sent) (sym same)
      ∙ finish-sent r message (send_raw message)

  already_sent :
      (again : List ℕ → Result (Unit {0})) (r : Response)
      → r.sent ≡ true
      → response_send deflate crc32 hash asked filled again r ≡ some (r, [], ok tt)
  unfolding response_send
  already_sent again r h = if_true r.sent _ _ h

  response_send-unsent :
      (r : Response)
      → r.sent ≡ false
      → response_send deflate crc32 hash asked filled send_raw r
        ≡ transmit deflate crc32 hash asked filled send_raw
            (build_data deflate crc32 hash asked filled r)
  unfolding response_send
  response_send-unsent r h = if_false r.sent _ _ h

  -- Once sending has returned, whether it succeeded or not, sending again hands no bytes to the
  -- connection, changes nothing and reports success.
  pub response_send_twice :
      (again : List ℕ → Result (Unit {0})) (r : Response)
      (out : Sent deflate crc32 hash asked filled)
      → response_send deflate crc32 hash asked filled send_raw r ≡ some out
      → response_send deflate crc32 hash asked filled again out.0 ≡ some (out.0, [], ok tt)
  response_send_twice again r out e = already_sent again out.0 (sent_after (Bool-cases r.sent))
    where
      sent_after : ((r.sent ≡ true) ⊎ (r.sent ≡ false)) → out.0.sent ≡ true
      sent_after (inl before) =
          let same : ◌≡◌ {A = Option (Sent deflate crc32 hash asked filled)} (some (r, [], ok tt))
              (some out) =
            sym (already_sent send_raw r before) ∙ e in
          let at_once : ◌≡◌ {A = Sent deflate crc32 hash asked filled} (r, [], ok tt) out = cc in
          ap (λ (x : Sent deflate crc32 hash asked filled). x.0.sent) (sym at_once) ∙ before
      sent_after (inr unsent) =
          transmit-sent (build_data deflate crc32 hash asked filled r) out
            (sym (response_send-unsent r unsent) ∙ e)
