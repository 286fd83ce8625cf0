-- ===== src/RateLimit/Settings.antt =====
-- What the limiter makes of headers and of settings (rate-limit.guard.ts and rate-limit.config.ts).
use expertos.Common.{◌≡◌, refl, true, false, none, some, [], ◌∷◌, str_eq, if◌then◌else◌}
use expertos.RateLimit.Client.{
  one, many, client_ip, header_value, truthy_text, Numbers, positive_int,
  resolve_rate_limit_options,
}

-- Two texts: `0.5`, that rounds down to 0, and one that is no number.
data Sample : Type 0 where
  half nan : Sample

abbrev samples : Numbers Sample
samples = record {
  read = λ s. if str_eq s "0.5" then half else nan;
  is_finite = λ n. elim n [ half ↦ true | nan ↦ false ];
  is_positive = λ n. elim n [ half ↦ true | nan ↦ false ];
  floor = λ n. 0;
}

-- A fraction below 1 is positive, so that it is not ignored: the ceiling becomes 0.
fraction_is_taken :
    (resolve_rate_limit_options samples (record {
      rate_limit_window_ms = none;
      rate_limit_max = some "0.5";
      rate_limit_max_keys = some "many";
    }))
    ≡ record { window_ms = 60000; max = 0; max_tracked_keys = 50000 }
unfolding resolve_rate_limit_options positive_int
fraction_is_taken = refl

forwarded_wins :
    client_ip
      (λ s. s)
      (record { forwarded_for = many ("a" ∷ []); ip = some "b"; remote_address = none })
    ≡ "a"
unfolding client_ip header_value truthy_text
forwarded_wins = refl

empty_hop_falls_back :
    client_ip (λ s. "") (record { forwarded_for = one " ,c"; ip = none; remote_address = none })
    ≡ "unknown"
unfolding client_ip header_value truthy_text
empty_hop_falls_back = refl
