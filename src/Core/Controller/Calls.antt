-- ===== src/Core/Controller/Calls.antt =====
-- browserd/core/browser_controller.cc: which page a call reaches, and what it is answered without one.
use browserd.Shared.{
  some-injective, subst, sym, ap, ◌∙◌, ℕ, ◌≡◌, ◌≢◌, refl, Bool, not, Option, none, some, List,
  String, if_elim, Option_elim,
}
use browserd.Platform.Json.{Json}
use browserd.Platform.Urls.{Urls}
use browserd.Platform.Cookies.{CookieStore}
use browserd.Core.Result
use browserd.Core.Result.{
  BrowserStatus, BrowserResult, success, failure, StatusCode, CookieInfo, CookieSetOptions,
  CookieDeleteOptions,
}
use browserd.Core.Runtime.{BrowserRuntime}
use browserd.Core.Controller.State
use browserd.Core.Controller.Outcomes
use browserd.Core.Controller.Outcomes.{PageState}
use browserd.Core.Controller.Pages
use browserd.Core.Controller.Pages.{WaitOptions}
use browserd.Core.Controller.Cookies

abbrev code_of_result : {A : Type 0} → BrowserResult A → StatusCode
code_of_result (success a) = Result.ok
code_of_result (failure c m) = c

-- The status code of an answer.
abbrev pub code_of : Outcomes.Reply → StatusCode
code_of (Outcomes.status s) = s.code
code_of (Outcomes.tabs r) = code_of_result r
code_of (Outcomes.tab r) = code_of_result r
code_of (Outcomes.evaluation r) = code_of_result r
code_of (Outcomes.text r) = code_of_result r
code_of (Outcomes.picture r) = code_of_result r
code_of (Outcomes.cookies r) = code_of_result r
code_of (Outcomes.cookie r) = code_of_result r

none-not_some : {A : Type 0} {a : A} → none ≢ some a
none-not_some e = cc

internal-not_missing : Result.internal_error ≢ Result.tab_not_found
internal-not_missing e = cc

internal-ready : Result.internal_error ≢ Result.session_not_ready
internal-ready e = cc

-- A call on a page that begins with the guard of `with_page`, with its arguments but for the target.
-- `Navigate`, and the calls that interact with a page, look at the runtime too, and are none of these.
pub data PageCall : Type 0 where
  navigate_back : PageCall
  navigate_forward : PageCall
  reload : PageCall
  evaluate : String → PageCall
  console_messages : PageCall
  snapshot : PageCall
  screenshot : PageCall
  wait_for : WaitOptions → PageCall
  list_cookies : Option String → PageCall
  get_cookie : String → PageCall
  set_cookie : CookieSetOptions → PageCall
  delete_cookie : CookieDeleteOptions → PageCall
  clear_cookies : PageCall

module _ (U : Urls) (J : Json) (is_none : J.Value → Bool) (write_json : J.Value → String)
    (K : CookieStore U.Url) (R : BrowserRuntime U.Url) (snapshot_script : String)
    (quoted : String → String) (number : ℕ → String) where
  abbrev Controller : Type 0
  Controller = State.Controller R

  abbrev Outcome : Type 0
  Outcome = Outcomes.Outcome U J is_none write_json K

  pub call_page : (ℕ → PageState U.Url) → Option Controller → Option String → PageCall → Outcome
  call_page page self id navigate_back = Pages.navigate_back U J is_none write_json K R page self id
  call_page page self id navigate_forward =
      Pages.navigate_forward U J is_none write_json K R page self id
  call_page page self id reload = Pages.reload U J is_none write_json K R self id
  call_page page self id (evaluate js) = Pages.evaluate U J is_none write_json K R self id js
  call_page page self id console_messages =
      Pages.console_messages U J is_none write_json K R self id
  call_page page self id snapshot =
      Pages.snapshot U J is_none write_json K R snapshot_script self id
  call_page page self id screenshot = Pages.screenshot U J is_none write_json K R page self id
  call_page page self id (wait_for o) =
      Pages.wait_for U J is_none write_json K R quoted number self id o
  call_page page self id (list_cookies url) =
      Cookies.list_cookies U J is_none write_json K R page self id url Outcomes.cookies
  call_page page self id (get_cookie name) =
      Cookies.get_cookie U J is_none write_json K R page self id name
  call_page page self id (set_cookie o) =
      Cookies.set_cookie U J is_none write_json K R page self id o
  call_page page self id (delete_cookie o) =
      Cookies.delete_cookie U J is_none write_json K R page self id o
  call_page page self id clear_cookies =
      Cookies.clear_cookies U J is_none write_json K R page self id

  -- An outcome that is an answer with this code.
  pub record RefusedWith (code : StatusCode) (o : Outcome) : Type 0 where
    pub reply : Outcomes.Reply
    pub only : o ≡ Outcomes.replies reply
    pub coded : code_of reply ≡ code

  -- An outcome that acts on no page but `w`, or that refuses for another reason than the target.
  pub data Reaches (w : ℕ) : Outcome → Type 0 where
    refuses :
        (r : Outcomes.Reply)
        → code_of r ≢ Result.tab_not_found
        → code_of r ≢ Result.session_not_ready
        → Reaches w (Outcomes.replies r)
    goes_back : (r : Outcomes.Reply) → Reaches w (Outcomes.goes_back w r)
    goes_forward : (r : Outcomes.Reply) → Reaches w (Outcomes.goes_forward w r)
    reloads : (k : BrowserStatus → Outcomes.Reply) → Reaches w (Outcomes.reloads w k)
    evaluates : {js : String} {a : Bool} {t : _} {k : _} → Reaches w (Outcomes.evaluates w js a t k)
    captures : {v : Bool} {k : _} → Reaches w (Outcomes.captures w v k)
    lists :
        {url : Option U.Url} {k : List K.Cookie → Outcomes.Reply}
        → Reaches w (Outcomes.lists_cookies w url k)
    sets :
        {c : K.Cookie} {url : U.Url} {k : Bool → Outcomes.Reply}
        → Reaches w (Outcomes.sets_cookie w c url k)
    deletes : {f : _} {k : ℕ → Outcomes.Reply} → Reaches w (Outcomes.deletes_cookies w f k)

  -- What `with_page` makes of a call.
  record Guarded (self : Option Controller) (id : Option String) (o : Outcome) : Type 0 where
    gone : self ≡ none → RefusedWith Result.session_not_ready o
    missing :
        (c : Controller)
        → self ≡ some c
        → State.resolve_web_contents R c id ≡ none
        → RefusedWith Result.tab_not_found o
    found :
        (c : Controller) (w : ℕ)
        → self ≡ some c
        → State.resolve_web_contents R c id ≡ some w
        → Reaches w o

  pub tab_not_found-code :
      (id : Option String) → (State.tab_not_found_status id).code ≡ Result.tab_not_found
  unfolding State.tab_not_found_status
  tab_not_found-code none = refl
  tab_not_found-code (some s) = refl

  with_page-Guarded :
      (self : Option Controller) (id : Option String) (answer : BrowserStatus → Outcomes.Reply)
      (next : ℕ → Outcome)
      → ((s : BrowserStatus) → code_of (answer s) ≡ s.code)
      → ((w : ℕ) → Reaches w (next w))
      → Guarded self id (Pages.with_page U J is_none write_json K R self id answer next)
  unfolding Pages.with_page
  with_page-Guarded none id answer next coded reach = record {
    gone = λ _. record { reply = answer State.not_ready_status; only = refl; coded = coded _ };
    missing = λ c e. cc;
    found = λ c w e. cc;
  }
  with_page-Guarded (some c) id answer next coded reach =
      Option_elim (Guarded (some c) id) (State.resolve_web_contents R c id)
        (λ n. record {
          gone = λ e. cc;
          missing = λ c' e h. record {
            reply = answer (State.tab_not_found_status id);
            only = refl;
            coded = coded (State.tab_not_found_status id) ∙ tab_not_found-code id;
          };
          found =
              λ c' w e h. absurd (none-not_some (sym n ∙ ap resolve (some-injective c c' e) ∙ h));
        })
        (λ v n. record {
          gone = λ e. cc;
          missing = λ c' e h.
              absurd (none-not_some (sym h ∙ sym (ap resolve (some-injective c c' e)) ∙ n));
          found = λ c' w e h.
              subst (λ u. Reaches u (next v))
                (some-injective v w (sym n ∙ ap resolve (some-injective c c' e) ∙ h)) (reach v);
        })
    where
      resolve : Controller → Option ℕ
      resolve x = State.resolve_web_contents R x id

  with_manager-Reaches :
      (page : ℕ → PageState U.Url) (w : ℕ) (o : Outcome)
      → Reaches w o
      → Reaches w (Cookies.with_manager U J is_none write_json K R page w o)
  with_manager-Reaches page w o r =
      if_elim (Reaches w) (not (page w).has_cookie_manager) (λ _. refuses _ (λ e. cc) (λ e. cc))
        (λ _. r)

  lists-Reaches :
      (w : ℕ) (url : Option String) (k : List K.Cookie → Outcomes.Reply)
      → Reaches w (elim url [
        | some u ↦ Outcomes.lists_cookies w (some (U.of_string u)) k
        | none ↦ Outcomes.lists_cookies w none k
      ])
  lists-Reaches w (some u) k = lists
  lists-Reaches w none k = lists

  list_cookies-Guarded :
      (page : ℕ → PageState U.Url) (self : Option Controller) (id url : Option String)
      (answer : BrowserResult (List CookieInfo) → Outcomes.Reply)
      → ((c : StatusCode) (m : String) → code_of (answer (failure c m)) ≡ c)
      → Guarded self id (Cookies.list_cookies U J is_none write_json K R page self id url answer)
  unfolding Cookies.list_cookies
  list_cookies-Guarded page self id url answer coded =
      with_page-Guarded self id (λ s. answer (failure s.code s.message)) _
        (λ s. coded s.code s.message)
        (λ w.
          if_elim (Reaches w) (not (page w).has_cookie_manager)
            (λ _.
              refuses (answer (failure Result.internal_error "No cookie manager"))
                (λ e.
                  internal-not_missing (sym (coded Result.internal_error "No cookie manager") ∙ e))
                (λ e. internal-ready (sym (coded Result.internal_error "No cookie manager") ∙ e)))
            (λ _. lists-Reaches w url _))

  call_page-Guarded :
      (page : ℕ → PageState U.Url) (self : Option Controller) (id : Option String) (call : PageCall)
      → Guarded self id (call_page page self id call)
  unfolding call_page Pages.navigate_back Pages.navigate_forward Pages.reload Pages.evaluate
      Pages.console_messages Pages.snapshot Pages.screenshot Pages.wait_for Cookies.get_cookie
      Cookies.get_cookie_result Cookies.set_cookie Cookies.delete_cookie Cookies.clear_cookies
  call_page-Guarded page self id navigate_back =
      with_page-Guarded self id Outcomes.status _ (λ s. refl)
        (λ w.
          if_elim (Reaches w) (not (page w).can_go_back) (λ _. refuses _ (λ e. cc) (λ e. cc))
            (λ _. goes_back _))
  call_page-Guarded page self id navigate_forward =
      with_page-Guarded self id Outcomes.status _ (λ s. refl)
        (λ w.
          if_elim (Reaches w) (not (page w).can_go_forward) (λ _. refuses _ (λ e. cc) (λ e. cc))
            (λ _. goes_forward _))
  call_page-Guarded page self id reload =
      with_page-Guarded self id Outcomes.status _ (λ s. refl) (λ w. reloads _)
  call_page-Guarded page self id (evaluate js) =
      with_page-Guarded self id _ _ (λ s. refl) (λ w. evaluates)
  call_page-Guarded page self id console_messages =
      with_page-Guarded self id _ _ (λ s. refl) (λ w. evaluates)
  call_page-Guarded page self id snapshot =
      with_page-Guarded self id _ _ (λ s. refl) (λ w. evaluates)
  call_page-Guarded page self id screenshot =
      with_page-Guarded self id _ _ (λ s. refl)
        (λ w.
          Option_elim (Reaches w) (page w).view (λ _. refuses _ (λ e. cc) (λ e. cc))
            (λ v _. captures))
  call_page-Guarded page self id (wait_for o) =
      with_page-Guarded self id Outcomes.status _ (λ s. refl)
        (λ w.
          Option_elim (Reaches w) o.selector
            (λ _.
              Option_elim (Reaches w) o.text (λ _. refuses _ (λ e. cc) (λ e. cc))
                (λ s _. evaluates))
            (λ s _. evaluates))
  call_page-Guarded page self id (list_cookies url) =
      list_cookies-Guarded page self id url Outcomes.cookies (λ c m. refl)
  call_page-Guarded page self id (get_cookie name) =
      list_cookies-Guarded page self id none _ (λ c m. refl)
  call_page-Guarded page self id (set_cookie o) =
      with_page-Guarded self id Outcomes.status _ (λ s. refl)
        (λ w. with_manager-Reaches page w _ (
          Option_elim (Reaches w)
            (K.create_sanitized_cookie (Cookies.cookie_parts U J is_none write_json K R (page w) o))
            (λ _. refuses _ (λ e. cc) (λ e. cc)) (λ c _. sets)))
  call_page-Guarded page self id (delete_cookie o) =
      with_page-Guarded self id Outcomes.status _ (λ s. refl)
        (λ w. with_manager-Reaches page w _ deletes)
  call_page-Guarded page self id clear_cookies =
      with_page-Guarded self id Outcomes.status _ (λ s. refl)
        (λ w. with_manager-Reaches page w _ deletes)

  -- Going back and forward, reloading, evaluating, the console messages, the snapshot, the screenshot,
  -- waiting and the five calls for cookies are answered that the session is not ready where the
  -- controller is gone, that there is no such tab where their target does not resolve, and else act on
  -- the page that it resolves to and no other, or are refused for another reason.
  pub call_page-target :
      (page : ℕ → PageState U.Url) (id : Option String) (call : PageCall) (c : Controller)
      → RefusedWith Result.session_not_ready (call_page page none id call)
        × (State.resolve_web_contents R c id ≡ none
            → RefusedWith Result.tab_not_found (call_page page (some c) id call))
        × ((w : ℕ)
            → State.resolve_web_contents R c id ≡ some w
            → Reaches w (call_page page (some c) id call))
  call_page-target page id call c = (
    (call_page-Guarded page none id call).gone refl,
    λ h. (call_page-Guarded page (some c) id call).missing c refl h,
    λ w h. (call_page-Guarded page (some c) id call).found c w refl h,
  )
