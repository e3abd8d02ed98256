-- ===== src/Heal/Report.antt =====
-- `report_incident` of src/heal.rs. The API of the server is what it answers to each call.
use zyris_docker.Prelude.{
  ◌≡◌, refl, ap, ◌⊎◌, inl, inr, Option, none, some, List, [], ◌∷◌, ◌++◌, Result, ok, err, All,
  append-nil, append_assoc, Result-cases,
}
use zyris_docker.Prelude.Text.{Text, codes}
use zyris_docker.Config.{Config}
use zyris_docker.Heal.Defs.{Incident}

-- `ZNewSession`
pub record NewSession : Type 0 where
  pub agent_id : Text
  pub title : Text
  pub project_id : Option Text
  pub preamble : Text

-- The server's side: whether it announces the API in time, the ids of the agents that it lists, and
-- the id of a session that it creates. Its answer to a message is only logged. An error is the text
-- that it displays as.
pub record Api : Type 0 where
  pub wait_capability : Result Text (Unit {0})
  pub list_agents : Result Text (List Text)
  pub create_session : NewSession → Result Text Text

pub data ApiCall : Type 0 where
  listed : ApiCall
  created : NewSession → ApiCall
  sent : Text → Text → ApiCall

-- `incident_body`; the node is given by its path.
unfoldable pub node_line : Option Text → Text
node_line (some path) =
    codes "This node's `node_path` is `" ++ (path ++ codes "`: pass it to every tool call.")
node_line none = codes "This node's `node_path` is not known yet; do not guess one."

unfoldable pub incident_body : Text → Option Text → Text
unfolding node_line
incident_body detail node =
    codes "Self-healing incident on container node.\n\n"
    ++ (detail
        ++ (codes "\n\n"
            ++ (node_line node
                ++ codes
                    "\n\nDiagnose with this node's `monitor` and `exec` capabilities, fix what you can, and report back what broke, what you found, what you did, and what remains.")))

-- One text stands in another.
abbrev pub Contains : Text → Text → Type 0
Contains part whole = (before : Text) × (after : Text) × (whole ≡ before ++ (part ++ after))

Contains-refl : (t : Text) → Contains t t
Contains-refl t = ([], [], rw append-nil refl)

Contains-append : (front part whole : Text) → Contains part whole → Contains part (front ++ whole)
Contains-append front part whole (before, after, e) =
    (front ++ before, after, rw (e, append_assoc front before (part ++ after)) refl)

Contains-extend : (part whole back : Text) → Contains part whole → Contains part (whole ++ back)
Contains-extend part whole back (before, after, e) = (
  before,
  after ++ back,
  rw (e, append_assoc before (part ++ after) back, append_assoc part after back) refl,
)

-- The node's path, where it is known.
abbrev pub NamesNode : Option Text → Text → Type 0
NamesNode none body = Unit
NamesNode (some path) body = Contains path body

incident_body-Contains :
    (detail : Text) (path : Option Text) → Contains detail (incident_body detail path)
unfolding incident_body
incident_body-Contains detail path =
    Contains-append (codes "Self-healing incident on container node.\n\n") detail _
      (Contains-extend detail detail _ (Contains-refl detail))

incident_body-NamesNode :
    (detail : Text) (path : Option Text) → NamesNode path (incident_body detail path)
unfolding incident_body node_line
incident_body-NamesNode detail none = tt
incident_body-NamesNode detail (some path) =
    Contains-append (codes "Self-healing incident on container node.\n\n") path _ (
      Contains-append detail path _ (
        Contains-append (codes "\n\n") path _ (
          Contains-extend path (node_line (some path)) _ (
            Contains-append (codes "This node's `node_path` is `") path _
              (Contains-extend path path _ (Contains-refl path))))))

module _ (config : Config) (node : Option Text) (incident : Incident) (api : Api) where
  -- The session that is asked for.
  unfoldable pub new_session : Text → NewSession
  new_session agent = record {
    agent_id = agent;
    title = codes "zyris-docker incident: " ++ (incident.kind ++ (codes " " ++ incident.name));
    project_id = config.heal_project_id;
    preamble = config.heal_preamble;
  }

  abbrev message_in : Result Text Text → List ApiCall
  message_in (ok session) = sent session (incident_body incident.detail node) ∷ []
  message_in (err e) = []

  abbrev session_of : Text → List ApiCall
  session_of agent =
      created (new_session agent) ∷ message_in (api.create_session (new_session agent))

  abbrev first_of : Result Text (List Text) → List ApiCall
  first_of (ok []) = []
  first_of (ok (agent ∷ agents)) = session_of agent
  first_of (err e) = []

  abbrev by_agent : Option Text → List ApiCall
  by_agent (some agent) = session_of agent
  by_agent none = listed ∷ first_of api.list_agents

  -- `report_incident`: the calls that are made, in order.
  unfoldable pub report_incident : List ApiCall
  unfolding incident_body new_session
  report_incident = elim api.wait_capability [ err e ↦ [] | ok _ ↦ by_agent config.heal_agent_id ]

  -- The agent that is configured, or else the first one that the server lists.
  abbrev pub IsHealer : Text → Type 0
  IsHealer agent =
      (config.heal_agent_id ≡ some agent)
      ⊎ ((config.heal_agent_id ≡ none)
          × ((agents : List Text) × (api.list_agents ≡ ok (agent ∷ agents))))

  -- A session with this agent, under the configured project and preamble, whose title names the
  -- incident.
  abbrev pub IsSession : Text → NewSession → Type 0
  IsSession agent session =
      (session.agent_id ≡ agent)
      × (session.project_id ≡ config.heal_project_id)
      × (session.preamble ≡ config.heal_preamble)
      × Contains (incident.kind ++ (codes " " ++ incident.name)) session.title

  -- What a call may be. A message goes into the session that was just opened for it, and says what is
  -- the matter and where.
  abbrev pub IsRight : ApiCall → Type 0
  IsRight listed = config.heal_agent_id ≡ none
  IsRight (created session) = (agent : Text) × IsHealer agent × IsSession agent session
  IsRight (sent session body) =
      (agent : Text) × (asked : NewSession) × IsHealer agent
      × IsSession agent asked
      × (api.create_session asked ≡ ok session)
      × Contains incident.detail body
      × NamesNode node body

  new_session-IsSession : (agent : Text) → IsSession agent (new_session agent)
  unfolding new_session
  new_session-IsSession agent =
      (refl, refl, refl, Contains-append (codes "zyris-docker incident: ") _ _ (Contains-refl _))

  session_of-IsRight : (agent : Text) → IsHealer agent → All IsRight (session_of agent)
  session_of-IsRight agent h =
      let session = new_session-IsSession agent in
      elim (Result-cases (api.create_session (new_session agent))) [
        | inl (id, e) ↦ rw e (
          (agent, h, session),
          (
            (
              agent,
              new_session agent,
              h,
              session,
              e,
              incident_body-Contains incident.detail node,
              incident_body-NamesNode incident.detail node,
            ),
            tt,
          ),
        )
        | inr (x, e) ↦ rw e ((agent, h, session), tt)
      ]

  first_of-IsRight :
      (answer : Result Text (List Text))
      → config.heal_agent_id ≡ none
      → api.list_agents ≡ answer
      → All IsRight (first_of answer)
  first_of-IsRight (ok []) h e = tt
  first_of-IsRight (ok (agent ∷ agents)) h e = session_of-IsRight agent (inr (h, (agents, e)))
  first_of-IsRight (err x) h e = tt

  by_agent-IsRight : (o : Option Text) → config.heal_agent_id ≡ o → All IsRight (by_agent o)
  by_agent-IsRight (some agent) h = session_of-IsRight agent (inl h)
  by_agent-IsRight none h = (h, first_of-IsRight api.list_agents h refl)

  -- Whatever the server answers: agents are listed only where none is configured; a session is
  -- opened only with the agent that is configured or else with the first one listed, under the
  -- configured project and preamble, and its title names the kind and the name of the
  -- incident; and a message goes only into the session that was opened for it, and holds the
  -- incident's detail and the node's path where that is known.
  pub report_incident-IsRight : All IsRight report_incident
  unfolding report_incident
  report_incident-IsRight = elim (Result-cases api.wait_capability) [
    | inl (a, e) ↦ rw e (by_agent-IsRight config.heal_agent_id refl)
    | inr (x, e) ↦ rw e tt
  ]

  session_of-sends :
      (agent session : Text)
      → api.create_session (new_session agent) ≡ ok session
      → session_of agent
        ≡ created (new_session agent) ∷ sent session (incident_body incident.detail node) ∷ []
  session_of-sends agent session e = rw e refl

  -- Where the server announces the API, there is an agent, and a session can be opened, the incident
  -- is sent, as the last call of the report.
  pub report_incident-sends :
      (agent session : Text)
      → api.wait_capability ≡ ok tt
      → IsHealer agent
      → api.create_session (new_session agent) ≡ ok session
      → (before : List ApiCall) × (report_incident
          ≡ before ++ (sent session (incident_body incident.detail node) ∷ []))
  unfolding report_incident
  report_incident-sends agent session w (inl h) e =
      (created (new_session agent) ∷ [], rw (w, h) (session_of-sends agent session e))
  report_incident-sends agent session w (inr (h, (agents, l))) e = (
    listed ∷ created (new_session agent) ∷ [],
    rw (w, h, l) (ap (λ calls. listed ∷ calls) (session_of-sends agent session e)),
  )
