-- ===== src/Mfa/Challenges/Pending.antt =====
-- mfa.service.ts, getChallengeUser: the user of a pending challenge.
use secure_auth_x_pro.Prelude.{◌≡◌, some, none, String}
use secure_auth_x_pro.Schema.{Store, LoginChallengeState}
use secure_auth_x_pro.Exec.{ok, err}
use secure_auth_x_pro.Cache.{get_challenge}
use secure_auth_x_pro.Cache.Laws.{pending, get_challenge-fresh, get_challenge_found}
use secure_auth_x_pro.Mfa.Challenges.{get_challenge_user, challenge_invalid}

pub challenge_user_runs :
    (id : String) (s : Store) {state : LoginChallengeState}
    → pending id s ≡ some state
    → get_challenge_user id s ≡ (ok state.user_id, s)
unfolding get_challenge_user
challenge_user_runs id s h = rw (get_challenge_user, get_challenge_found id s h)

-- Where none is pending, reading it drops an expired entry at most.
pub challenge_user_missing :
    (id : String) (s : Store)
    → pending id s ≡ none
    → get_challenge_user id s ≡ (err challenge_invalid, (get_challenge id s).1)
unfolding get_challenge_user
challenge_user_missing id s h = rw (get_challenge_user, get_challenge-fresh id s, h)
