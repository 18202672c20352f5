-- ===== src/Lib.antt =====
-- Verification library of the Concordia chat application: the web application of the repository
-- (apps/web-app), the desktop application (apps/desktop-app) and the deployment code (infra/cdk), as
-- they are written in TypeScript and JavaScript.
--
-- The parts and how they interact. A page of the web application is made of components that keep
-- their own state, answer the events of the browser and ask the gateway through one function,
-- apiFetch. A channel is a ChannelView, which holds the messages that its WebSocket pushes and that
-- the user is sending, a MessageList, which holds the pages fetched and merges the two, and a
-- MessageInput, which hands what is typed to ChannelView. ServerSidebar and ChannelSidebar hold the
-- servers and the channels of one; VoiceChannelView holds the peer connections of a voice channel.
-- The deployment code computes the objects of a Kubernetes cluster from the properties of a stack.
--
-- Which file models which part:
--   Prelude, Http     shared names, lists, texts, keyed lists; a response and a reply
--   Api               apps/web-app/app/lib/api.ts: apiFetch (api_fetch and its stages first_request,
--                     after_response, refreshed, retry) and getWebSocketUrl
--   Auth              apps/web-app/app/actions/auth.ts: loginAction, registerAction, logoutAction
--   Auth/Login        apps/web-app/app/login/page.tsx with loginAction
--   Auth/Register     apps/web-app/app/register/page.tsx: the form and its two steps;
--                     Signup has the page with registerAction, Screen what it draws
--   Chat              apps/web-app/app/components/ChannelView.tsx: the extra messages; handleSend is
--                     send up to its await and settle after it, ws.onmessage is on_message
--   Chat/Socket       the same file: connectWs, ws.onopen, ws.onclose, the effect and its clean-up
--   Chat/Spec         what ChannelView promises of the ids shown, without order and content
--   Composer          apps/web-app/app/components/MessageInput.tsx
--   Timeline          apps/web-app/app/components/MessageList.tsx: the pages, the merge, deletion;
--                     Timeline/Scroll has its scroll position, Timeline/Board its rows and
--                     buttons: a button is clicked only where a row has it
--   Room              ChannelView with its MessageInput and MessageList: submit is Enter or a click on
--                     the button with the part of handleSend before its await, answer the reply
--   Servers           apps/web-app/app/components/ServerSidebar.tsx; Servers/Color has serverColor,
--                     Servers/Uuid the pattern of an id and Servers/Active activeServerId
--                     and activeChannelId; Servers/Session has the sidebar with its modal and the
--                     requests under way, each reply an event; Servers/Screen has what it draws
--   Channels          apps/web-app/app/components/ChannelSidebar.tsx; Channels/Panel has what it shows,
--                     Channels/Session the sidebar over moves of the address, with its modal,
--                     Channels/Screen what it draws
--   Voice             apps/web-app/app/components/VoiceChannelView.tsx; Voice/Signals has what it sends,
--                     Voice/Joining the turns of handleJoin, Voice/Visits its buttons and its end,
--                     Voice/Screen what it draws
--   Shell             apps/web-app/app/layout.tsx: the socket for mentions
--   Tips              apps/web-app/app/app/tips/page.tsx; Tips/Session has its runs, Tips/Screen what it
--                     draws, and Tips/Dialog is
--                     apps/web-app/app/components/SendTipModal.tsx
--   Desktop           apps/desktop-app/main.js: the window, the tray, quitting and notifications;
--                     Desktop/Window has what it calls of Electron's windows and the laws of
--                     those, Desktop/Menus the application menu, Desktop/Switch the switch of
--                     ChannelSidebar for notifications
--   Deploy            infra/cdk/lib/cluster-construct.ts: the builders; Deploy/Workloads has the
--                     workloads, Deploy/Jobs the jobs, Cassandra and the list of all objects,
--                     Deploy/Order what waits for what, Deploy/Secrets the secrets of
--                     infra/cdk/bin/concordia.ts, Deploy/Stack the
--                     settings and the whole stack (infra/cdk/lib/concordia-stack.ts,
--                     network-construct.ts, data-construct.ts)
-- The children of a module hold its proofs, named for what they prove; each Tests module applies the
-- theorems at concrete inputs.
--
-- How state is modelled. The state of a component is a record with the fields of its useState and
-- useRef, and a handler is a function from state to state. A handler that awaits is cut there: the
-- part before a request is one function (start_..., send), the part after it another (finish_...,
-- settle) that takes the reply, so that other events may come between. apiFetch and the actions of
-- auth.ts are not cut: each is one function of its whole call, with the replies from serve, so that
-- nothing comes between its awaits, and nothing is said of what two calls at a time, or a log-out
-- during a call, do to the tokens. A reply is absent where the promise is rejected, and its body is
-- absent where res.json() rejects; the body null of a refresh reply, from which no token can be
-- read, counts as absent too. Where a component has events
-- of several kinds, a data type lists them, step is one of them and run a sequence, in any order. The
-- gateway is a parameter: serve gives the reply to a request after those already made. What a
-- theorem needs of the services (what a page of messages is, that ids are not those of placeholders)
-- is a named hypothesis of it.
--
-- Numbers. Times, heights and counts are natural numbers; the difference in nearBottom, which may be
-- negative, is written as a sum. The amounts of SendTipModal are JavaScript numbers, which are a
-- parameter of it with the five operations that it uses. serverColor keeps the 32 bits of its hash
-- as a pattern below 2 ^ 32. Only decimal, the text of a number, runs on fuel: one more than the
-- number, which has fewer digits.
--
-- Not modelled: styles and icons, focus and the height of the message field; the SDP
-- texts and the media of a call; the clocks and the formats of dates; the cloud library, with
-- the roles, the add-ons and the addresses that it makes; the backend services, which are
-- written in other languages.
pub mod Prelude
pub mod Http
pub mod Api
pub mod Auth
pub mod Channels
pub mod Chat
pub mod Composer
pub mod Deploy
pub mod Desktop
pub mod Room
pub mod Servers
pub mod Shell
pub mod Timeline
pub mod Tips
pub mod Voice
