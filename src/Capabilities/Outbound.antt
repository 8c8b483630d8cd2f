-- ===== src/Capabilities/Outbound.antt =====
-- `check_net_outbound` against the contract in its documentation.
use iot_athome.Prelude.{
  ℕ, [], ◌∷◌, ◌++◌, ◌≡◌, refl, true, false, ◌↔◌, ◌⊎◌, Text, codes, text_eq_iff, starts_with-append,
  starts_with→append, get_elem?-append, arith, Any, any→Any, Any→any, Any-map, ok, err, Result,
  Option, some, none,
}
use iot_athome.Capabilities.{
  CapabilityMap, UrlCrate, option_eq, port_eq, ends_with_slash, path_covers, or_root, entry_covers,
  url_entry_authorises, check_request, check_net_outbound,
}

-- What follows the entry's path begins a new segment, or the entry ends in a slash.
abbrev pub AtSegment : Text → Text → Type 0
AtSegment allow_path [] = Unit
AtSegment allow_path (c ∷ r) = (ends_with_slash allow_path ≡ true) ⊎ (c ≡ b'/')

-- `req` is `allow`, extended at a segment boundary.
abbrev pub Extends : Text → Text → Type 0
Extends allow req = (r : Text) × (req ≡ allow ++ r) × AtSegment allow r

path_covers_sound : (allow req : Text) → path_covers allow req ≡ true → Extends allow req
unfolding path_covers
path_covers_sound allow req h =
    let (r, e) = starts_with→append allow req (ground arith) in (r, e, boundary r (rw e at h))
  where
    boundary : (r : Text) → path_covers allow (allow ++ r) ≡ true → AtSegment allow r
    boundary [] k = tt
    boundary (c ∷ r) k =
        ground (arith, get_elem?-append allow (c ∷ r), starts_with-append allow (c ∷ r))

path_covers_complete : (allow req : Text) → Extends allow req → path_covers allow req ≡ true
path_covers_complete allow req (r, e, b) = rw e (covered r b)
  where
    covered : (r : Text) → AtSegment allow r → path_covers allow (allow ++ r) ≡ true
    covered [] k =
        unfold path_covers in ground (arith, get_elem?-append allow [], starts_with-append allow [])
    covered (c ∷ r) k =
        unfold path_covers in
        ground (arith, get_elem?-append allow (c ∷ r), starts_with-append allow (c ∷ r))

option_eq_iff : (a b : Option Text) → (option_eq a b ≡ true) ↔ (a ≡ b)
option_eq_iff none none = (λ h. refl, λ h. refl)
option_eq_iff none (some t) = ground arith
option_eq_iff (some s) none = ground arith
option_eq_iff (some s) (some t) = ground (arith, text_eq_iff s t)

port_eq_iff : (a b : Option ℕ) → (port_eq a b ≡ true) ↔ (a ≡ b)
port_eq_iff none none = (λ h. refl, λ h. refl)
port_eq_iff none (some t) = ground arith
port_eq_iff (some s) none = ground arith
port_eq_iff (some s) (some t) = ground arith

module _ (c : UrlCrate) where
  open c use {Url, parse, scheme, username, password, host_str, port_or_known_default, path}

  -- Of two parsed URLs: same scheme, host and port, and a path that extends its own.
  pub record Authorises (allow req : Url) : Type 0 where
    pub same_scheme : scheme allow ≡ scheme req
    pub same_host : host_str allow ≡ host_str req
    pub same_port : port_or_known_default allow ≡ port_or_known_default req
    pub below : Extends (or_root c (path allow)) (path req)

  -- The request itself is acceptable.
  pub record IsPlainHttp (req : Url) : Type 0 where
    pub web : (scheme req ≡ codes "http") ⊎ (scheme req ≡ codes "https")
    pub no_user : username req ≡ []
    pub no_password : password req ≡ none

  abbrev pub EntryAuthorises : Url → Text → Type 0
  EntryAuthorises req entry = (allow : Url) × (parse entry ≡ ok allow) × Authorises allow req

  entry_covers_sound : (allow req : Url) → entry_covers c allow req ≡ true → Authorises allow req
  unfolding entry_covers
  entry_covers_sound allow req h = record {
    same_scheme = (text_eq_iff (scheme allow) (scheme req)).0 (ground arith);
    same_host = (option_eq_iff (host_str allow) (host_str req)).0 (ground arith);
    same_port =
        (port_eq_iff (port_or_known_default allow) (port_or_known_default req)).0 (ground arith);
    below = path_covers_sound (or_root c (path allow)) (path req) (ground arith);
  }

  entry_covers_complete : (allow req : Url) → Authorises allow req → entry_covers c allow req ≡ true
  unfolding entry_covers
  entry_covers_complete allow req a =
      rw
        (
          (text_eq_iff (scheme allow) (scheme req)).1 a.same_scheme,
          (option_eq_iff (host_str allow) (host_str req)).1 a.same_host,
          (port_eq_iff (port_or_known_default allow) (port_or_known_default req)).1 a.same_port,
        )
        (path_covers_complete (or_root c (path allow)) (path req) a.below)

  entry_sound :
      (req : Url) (entry : Text)
      → url_entry_authorises c entry req ≡ true
      → EntryAuthorises req entry
  unfolding url_entry_authorises
  entry_sound req entry h = parsed (parse entry) refl h
    where
      parsed :
          (r : Result Text Url)
          → parse entry ≡ r
          → (elim r [ err _ ↦ false | ok allow ↦ entry_covers c allow req ]) ≡ true
          → EntryAuthorises req entry
      parsed (ok allow) e k = (allow, e, entry_covers_sound allow req k)
      parsed (err x) e k = cc

  entry_complete :
      (req : Url) (entry : Text)
      → EntryAuthorises req entry
      → url_entry_authorises c entry req ≡ true
  unfolding url_entry_authorises
  entry_complete req entry (allow, e, a) =
      rw (e, url_entry_authorises) (entry_covers_complete allow req a)

  -- What the documentation of `check_net_outbound` promises.
  pub record Permitted (m : CapabilityMap) (req : Url) : Type 0 where
    pub plain : IsPlainHttp req
    pub listed : Any (EntryAuthorises req) m.net.outbound

  request_sound :
      (m : CapabilityMap) (url : Text) (req : Url)
      → check_request c m url req ≡ ok tt
      → Permitted m req
  unfolding check_request
  request_sound m url req h = record {
    plain = record {
      web = ground (
        arith,
        text_eq_iff (scheme req) (codes "http"),
        text_eq_iff (scheme req) (codes "https"),
      );
      no_user = ground arith;
      no_password = ground arith;
    };
    listed =
        Any-map m.net.outbound (entry_sound req)
          (any→Any (λ e. url_entry_authorises c e req) m.net.outbound (ground arith));
  }

  request_complete :
      (m : CapabilityMap) (url : Text) (req : Url)
      → Permitted m req
      → check_request c m url req ≡ ok tt
  unfolding check_request
  request_complete m url req h = ground (
    arith,
    text_eq_iff (scheme req) (codes "http"),
    text_eq_iff (scheme req) (codes "https"),
    Any→any (λ e. url_entry_authorises c e req) m.net.outbound
        (Any-map m.net.outbound (entry_complete req) h.listed),
  )

  -- `check_net_outbound` lets a URL through exactly when it parses as an http or https URL without
  -- userinfo, and some entry of the manifest parses and has its scheme, host and port and a path
  -- which the request's path extends at a segment boundary.
  pub check_net_outbound_iff :
      (m : CapabilityMap) (url : Text)
      → (check_net_outbound c m url ≡ ok tt)
        ↔ ((req : Url) × (parse url ≡ ok req) × Permitted m req)
  unfolding check_net_outbound
  check_net_outbound_iff m url = (
    λ h. parsed (parse url) refl h,
    λ (req, e, p). rw (e, check_net_outbound) (request_complete m url req p),
  )
    where
      parsed :
          (r : Result Text Url)
          → parse url ≡ r
          → check_net_outbound c m url ≡ ok tt
          → (req : Url) × (parse url ≡ ok req) × Permitted m req
      parsed (ok req) e k = (req, e, request_sound m url req (rw (e, check_net_outbound) at k))
      parsed (err x) e k = cc (rw (e, check_net_outbound) at k)
