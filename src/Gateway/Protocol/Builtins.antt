-- ===== src/Gateway/Protocol/Builtins.antt =====
-- gateway/protocol.cpp: the built-in methods, stubs until a subsystem is wired to them.
use mylobsterpp.Prelude.{List, [], ◌∷◌, some, Text, codes, Json, text, object, member, no_members}
use mylobsterpp.Gateway.Protocol.{MethodHandler, Protocol, register_method}

unfoldable pub stub_reply : (method_name : Text) → Json
stub_reply method_name = object (
    member (codes "status") (text (codes "not_implemented")) (
      member (codes "method") (text method_name) (
        member (codes "message")
          (text (codes "This method is registered but not yet connected to a subsystem."))
          no_members)))

unfoldable pub make_stub : {W : Type 0} → (method_name : Text) → MethodHandler W
unfolding stub_reply
make_stub method_name w params = (w, some (stub_reply method_name))

-- Names with descriptions, registered as stubs of a group.
unfoldable pub register_stubs :
    {W : Type 0} → (group : Text) → List (Text × Text) → Protocol W → Protocol W
unfolding make_stub register_method
register_stubs group [] p = p
register_stubs group ((name, description) ∷ rest) p =
    register_stubs group rest (register_method p name (make_stub name) description group)

unfoldable pub gateway_methods : List (Text × Text)
gateway_methods =
    (codes "gateway.info", codes "Return gateway version and capabilities")
    ∷ (codes "gateway.ping", codes "Health check ping")
    ∷ (codes "gateway.status", codes "Return gateway runtime status (uptime, connections, load)")
    ∷ (codes "gateway.methods", codes "List all registered RPC methods")
    ∷ (codes "gateway.subscribe", codes "Subscribe to server-sent events by topic")
    ∷ (codes "gateway.unsubscribe", codes "Unsubscribe from server-sent events")
    ∷ (codes "gateway.shutdown", codes "Initiate graceful server shutdown")
    ∷ (codes "gateway.reload", codes "Reload gateway configuration")
    ∷ (codes "gateway.metrics", codes "Return gateway metrics (requests, latencies, errors)")
    ∷ (codes "gateway.logs", codes "Stream or query recent gateway logs")
    ∷ []

unfoldable pub session_methods : List (Text × Text)
session_methods =
    (codes "session.create", codes "Create a new user session")
    ∷ (codes "session.get", codes "Get session details by id")
    ∷ (codes "session.list", codes "List active sessions")
    ∷ (codes "session.destroy", codes "Destroy / end a session")
    ∷ (codes "session.heartbeat", codes "Keep a session alive")
    ∷ (codes "session.update", codes "Update session metadata")
    ∷ (codes "session.context.set", codes "Set session context variables")
    ∷ (codes "session.context.get", codes "Get session context variables")
    ∷ (codes "session.context.clear", codes "Clear session context")
    ∷ (codes "session.history", codes "Get session message history")
    ∷ []

unfoldable pub channel_methods : List (Text × Text)
channel_methods =
    (codes "channel.list", codes "List available communication channels")
    ∷ (codes "channel.connect", codes "Connect / enable a channel")
    ∷ (codes "channel.disconnect", codes "Disconnect / disable a channel")
    ∷ (codes "channel.status", codes "Get channel connection status")
    ∷ (codes "channel.send", codes "Send a message through a channel")
    ∷ (codes "channel.receive", codes "Poll for messages from a channel")
    ∷ (codes "channel.configure", codes "Update channel configuration")
    ∷ (codes "channel.telegram.webhook", codes "Register Telegram webhook")
    ∷ (codes "channel.discord.setup", codes "Set up Discord bot connection")
    ∷ (codes "channel.slack.setup", codes "Set up Slack bot connection")
    ∷ (codes "channel.whatsapp.setup", codes "Set up WhatsApp Business API connection")
    ∷ (codes "channel.sms.send", codes "Send an SMS via Twilio")
    ∷ []

unfoldable pub tool_methods : List (Text × Text)
tool_methods =
    (codes "tool.list", codes "List all registered tools")
    ∷ (codes "tool.execute", codes "Execute a tool by name with params")
    ∷ (codes "tool.register", codes "Register a new dynamic tool")
    ∷ (codes "tool.unregister", codes "Unregister a dynamic tool")
    ∷ (codes "tool.describe", codes "Get tool schema and description")
    ∷ (codes "tool.enable", codes "Enable a disabled tool")
    ∷ (codes "tool.disable", codes "Disable a tool without unregistering")
    ∷ (codes "tool.shell.exec", codes "Execute a shell command")
    ∷ (codes "tool.file.read", codes "Read file contents")
    ∷ (codes "tool.file.write", codes "Write file contents")
    ∷ (codes "tool.file.list", codes "List directory contents")
    ∷ (codes "tool.file.search", codes "Search files by pattern")
    ∷ (codes "tool.http.request", codes "Make an HTTP request")
    ∷ (codes "tool.code.run", codes "Execute code in a sandboxed runtime")
    ∷ (codes "tool.code.analyze", codes "Analyze code for issues")
    ∷ []

unfoldable pub memory_methods : List (Text × Text)
memory_methods =
    (codes "memory.store", codes "Store a memory/fact")
    ∷ (codes "memory.recall", codes "Recall memories by semantic query")
    ∷ (codes "memory.search", codes "Search memories with filters")
    ∷ (codes "memory.delete", codes "Delete a specific memory")
    ∷ (codes "memory.list", codes "List stored memories")
    ∷ (codes "memory.clear", codes "Clear all memories for a scope")
    ∷ (codes "memory.stats", codes "Return memory store statistics")
    ∷ (codes "memory.embed", codes "Generate embedding for text")
    ∷ (codes "memory.index.rebuild", codes "Rebuild the vector index")
    ∷ (codes "memory.rag.query", codes "RAG query: retrieve context and generate response")
    ∷ []

unfoldable pub browser_methods : List (Text × Text)
browser_methods =
    (codes "browser.open", codes "Open a URL in headless browser")
    ∷ (codes "browser.close", codes "Close a browser page")
    ∷ (codes "browser.navigate", codes "Navigate to a URL")
    ∷ (codes "browser.screenshot", codes "Take a screenshot")
    ∷ (codes "browser.content", codes "Get page content as text/html")
    ∷ (codes "browser.click", codes "Click an element on the page")
    ∷ (codes "browser.type", codes "Type text into an input field")
    ∷ (codes "browser.evaluate", codes "Evaluate JavaScript on the page")
    ∷ (codes "browser.wait", codes "Wait for a selector or condition")
    ∷ (codes "browser.scroll", codes "Scroll the page")
    ∷ (codes "browser.pdf", codes "Export page as PDF")
    ∷ (codes "browser.cookies.get", codes "Get browser cookies")
    ∷ (codes "browser.cookies.set", codes "Set browser cookies")
    ∷ []

unfoldable pub provider_methods : List (Text × Text)
provider_methods =
    (codes "provider.list", codes "List configured AI providers")
    ∷ (codes "provider.chat", codes "Send a chat completion request")
    ∷ (codes "provider.chat.stream", codes "Stream a chat completion")
    ∷ (codes "provider.models", codes "List available models for a provider")
    ∷ (codes "provider.embed", codes "Generate embeddings via a provider")
    ∷ (codes "provider.status", codes "Check provider availability")
    ∷ (codes "provider.configure", codes "Update provider configuration at runtime")
    ∷ (codes "provider.usage", codes "Get token/cost usage statistics")
    ∷ []

unfoldable pub plugin_methods : List (Text × Text)
plugin_methods =
    (codes "plugin.list", codes "List installed plugins")
    ∷ (codes "plugin.install", codes "Install a plugin from path or URL")
    ∷ (codes "plugin.uninstall", codes "Uninstall a plugin")
    ∷ (codes "plugin.enable", codes "Enable an installed plugin")
    ∷ (codes "plugin.disable", codes "Disable a plugin")
    ∷ (codes "plugin.configure", codes "Update plugin settings")
    ∷ (codes "plugin.call", codes "Call an exported plugin function")
    ∷ (codes "plugin.status", codes "Get plugin runtime status")
    ∷ []

unfoldable pub agent_methods : List (Text × Text)
agent_methods =
    (codes "agent.chat", codes "Send a message to the agent and get a response")
    ∷ (codes "agent.chat.stream", codes "Stream agent chat response")
    ∷ (codes "agent.chat.cancel", codes "Cancel an in-progress agent response")
    ∷ (codes "agent.system_prompt.get", codes "Get the current system prompt")
    ∷ (codes "agent.system_prompt.set", codes "Set the system prompt")
    ∷ (codes "agent.thinking.set", codes "Set thinking mode (none, basic, extended)")
    ∷ (codes "agent.thinking.get", codes "Get current thinking mode")
    ∷ (codes "agent.model.set", codes "Set the active model")
    ∷ (codes "agent.model.get", codes "Get the active model")
    ∷ (codes "agent.conversation.create", codes "Create a new conversation")
    ∷ (codes "agent.conversation.list", codes "List conversations")
    ∷ (codes "agent.conversation.get", codes "Get conversation details and messages")
    ∷ (codes "agent.conversation.delete", codes "Delete a conversation")
    ∷ (codes "agent.conversation.rename", codes "Rename a conversation")
    ∷ []

unfoldable pub cron_methods : List (Text × Text)
cron_methods =
    (codes "cron.list", codes "List scheduled tasks")
    ∷ (codes "cron.create", codes "Create a scheduled task")
    ∷ (codes "cron.delete", codes "Delete a scheduled task")
    ∷ (codes "cron.enable", codes "Enable a scheduled task")
    ∷ (codes "cron.disable", codes "Disable a scheduled task")
    ∷ (codes "cron.trigger", codes "Manually trigger a scheduled task")
    ∷ (codes "cron.status", codes "Get cron scheduler status")
    ∷ []

unfoldable pub config_methods : List (Text × Text)
config_methods =
    (codes "config.get", codes "Get configuration value by key")
    ∷ (codes "config.set", codes "Set configuration value")
    ∷ (codes "config.list", codes "List all configuration keys")
    ∷ (codes "config.reset", codes "Reset configuration to defaults")
    ∷ (codes "config.export", codes "Export full configuration as JSON")
    ∷ (codes "config.import", codes "Import configuration from JSON")
    ∷ []

unfoldable pub register_builtins : {W : Type 0} → Protocol W → Protocol W
unfolding register_stubs gateway_methods session_methods channel_methods tool_methods memory_methods
    browser_methods provider_methods plugin_methods agent_methods cron_methods config_methods
register_builtins p = register_stubs (codes "config") config_methods (
    register_stubs (codes "cron") cron_methods (
      register_stubs (codes "agent") agent_methods (
        register_stubs (codes "plugin") plugin_methods (
          register_stubs (codes "provider") provider_methods (
            register_stubs (codes "browser") browser_methods (
              register_stubs (codes "memory") memory_methods (
                register_stubs (codes "tool") tool_methods (
                  register_stubs (codes "channel") channel_methods (
                    register_stubs (codes "session") session_methods
                      (register_stubs (codes "gateway") gateway_methods p))))))))))
